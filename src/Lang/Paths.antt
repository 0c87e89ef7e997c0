-- ===== src/Lang/Paths.antt =====
-- What the conventions of crates/aide-lang/src/languages read of a path: its directories, its file name,
-- and the stem and the extension of that.
use aide_mcp.Base.{
  text_equal, [], ◌∷◌, none, some, false, ℕ, if◌then◌else◌, List, Option, Bool, Text, codes,
  text_same, ◌||◌, any, not,
}
use aide_mcp.Base.Strings.{starts_with, contains, to_ascii_lowercase, after_last, rsplit_once}

abbrev pub slash : ℕ
slash = 47

abbrev pub dot : ℕ
dot = 46

abbrev pub filename_of : Text → Text
filename_of path = after_last slash path

-- `Path::new(name)` has a file name.
abbrev pub is_proper : Text → Bool
is_proper name =
    not (text_same name [] || (text_same name (codes ".") || text_same name (codes "..")))

abbrev pub unless_hidden : Option (Text × Text) → Option (Text × Text)
unless_hidden none = none
unless_hidden (some ([], e)) = none
unless_hidden (some (c ∷ stem, e)) = some (c ∷ stem, e)

-- The name split at its last dot, unless that is its first character.
abbrev pub split_stem : Text → Option (Text × Text)
split_stem name = unless_hidden (rsplit_once dot name)

-- `Path::file_stem` and `Path::extension` of a name without a slash.
abbrev pub file_stem : Text → Option Text
file_stem name =
    if is_proper name
    then elim (split_stem name) [ none ↦ some name | some (stem, e) ↦ some stem ]
    else none

abbrev pub extension : Text → Option Text
extension name =
    if is_proper name
    then elim (split_stem name) [ none ↦ none | some (stem, e) ↦ some e ]
    else none

-- A directory of that name, with its slash, at the start or below.
abbrev pub in_dir : Text → Text → Bool
in_dir dir path = starts_with dir path || contains (slash ∷ dir) path

abbrev pub has_extension : List Text → Text → Bool
has_extension exts name = elim (extension name) [
  | none ↦ false
  | some e ↦ any (λ x. text_same (to_ascii_lowercase e) x) exts
]

abbrev pub is_test_dir : Text → Bool
is_test_dir p = in_dir (codes "test/") p || in_dir (codes "tests/") p
