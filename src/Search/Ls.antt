-- ===== src/Search/Ls.antt =====
-- `list_files` and `list_files_at` of crates/aide-search/src/ls.rs, with `Scope` of scope.rs. The files of
-- a scope come from git and from a walk of the file system, and a glob from a library: they are
-- arguments.
pub mod Sorted
use aide_mcp.Base.{
  text_equal, [], ◌∷◌, none, some, true, false, ℕ, if◌then◌else◌, ◌++◌, List, Option, Bool, Text,
  text_same, map, ltb, take, ◌==◌, select,
}
use aide_mcp.Base.Sort.{sort_by}
use aide_mcp.Base.Result.{Result, ok, err}

pub data Scope : Type 0 where
  tracked all dirty staged : Scope

pub data SearchError : Type 0 where
  invalid_glob not_a_repo git walk : SearchError

pub record LsOptions : Type 0 where
  pub glob : Option Text
  pub max_results : Option ℕ
  pub include_hidden : Bool

-- `Ord` of strings: bytes of UTF-8 stand in the order of code points.
abbrev pub less : Text → Text → Bool
less [] [] = false
less [] (d ∷ t) = true
less (c ∷ s) [] = false
less (c ∷ s) (d ∷ t) = if ltb c d then true else if c == d then less s t else false

abbrev pub behind : Text → Text → Bool
behind s t = less t s

-- `Vec::dedup`
unfoldable pub dedup_from : Text → List Text → List Text
dedup_from x [] = []
dedup_from x (y ∷ ys) =
    let same = dedup_from x ys in
    let other = dedup_from y ys in if text_same x y then same else y ∷ other

unfoldable pub dedup : List Text → List Text
unfolding dedup_from
dedup [] = []
dedup (x ∷ xs) = x ∷ dedup_from x xs

abbrev pub truncated : Option ℕ → List Text → List Text
truncated none files = files
truncated (some n) files = take n files

-- No glob matches everything.
abbrev pub matches_glob : Option (Text → Bool) → Text → Bool
matches_glob none p = true
matches_glob (some m) p = m p

-- From `files.retain` to the end.
unfoldable pub finish : Option (Text → Bool) → Option ℕ → List Text → List Text
unfolding dedup
finish matcher max_results files =
    truncated max_results (dedup (sort_by behind (select (matches_glob matcher) files)))

-- `options.glob.as_deref().map(...).transpose()?`
abbrev pub compiled :
    (Text → Option (Text → Bool)) → Option Text → Result SearchError (Option (Text → Bool))
compiled build none = ok none
compiled build (some pattern) = elim (build pattern) [
  | none ↦ err invalid_glob
  | some m ↦ ok (some m)
]

unfoldable pub list_files :
    (Text → Option (Text → Bool))
    → (Scope → Bool → Result SearchError (List Text))
    → Scope
    → LsOptions
    → Result SearchError (List Text)
unfolding finish
list_files build files_of scope options = elim (compiled build options.glob) [
  | err e ↦ err e
  | ok matcher ↦ elim (files_of scope options.include_hidden) [
    | err e ↦ err e
    | ok files ↦ ok (finish matcher options.max_results files)
  ]
]

-- The path of a blob below a directory of the tree.
abbrev pub joined : Text × Text → Text
joined p = elim p.0 [ [] ↦ p.1 | _ ∷ _ ↦ p.0 ++ p.1 ]

-- `blobs` is what the walk of the commit's tree gives.
unfoldable pub list_files_at :
    (Text → Option (Text → Bool))
    → Result SearchError (List (Text × Text))
    → LsOptions
    → Result SearchError (List Text)
unfolding finish
list_files_at build blobs options = elim (compiled build options.glob) [
  | err e ↦ err e
  | ok matcher ↦ elim blobs [
    | err e ↦ err e
    | ok entries ↦ ok (finish matcher options.max_results (map joined entries))
  ]
]
