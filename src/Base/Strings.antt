-- ===== src/Base/Strings.antt =====
-- The standard library's operations on strings that several parts use.
use aide_mcp.Base.Equality.{text_same}
use Prim.Native.Nat.{ℕ, ◌+◌}
use mathlib.Core.Bool.{Bool, true, false, ◌&&◌, ◌||◌}
use mathlib.Core.Option.{Option, none, some}
use mathlib.Core.List.{[], ◌∷◌, map, ◌++◌}
use aide_mcp.Base.Tests.{if◌then◌else◌, leb, ◌==◌}
use aide_mcp.Base.Lists.{Text}
use aide_mcp.Base.{◌++◌, List}

abbrev pub line_feed : ℕ
line_feed = 10

abbrev pub carriage_return : ℕ
carriage_return = 13

-- `char::is_whitespace`
abbrev pub is_whitespace : ℕ → Bool
is_whitespace c =
    (leb 9 c && leb c 13)
    || c == 32
    || c == 0x85
    || c == 0xA0
    || c == 0x1680
    || (leb 0x2000 c && leb c 0x200A)
    || c == 0x2028
    || c == 0x2029
    || c == 0x202F
    || c == 0x205F
    || c == 0x3000

abbrev pub is_line_end : ℕ → Bool
is_line_end c = c == carriage_return || c == line_feed

abbrev pub trim_start : (ℕ → Bool) → Text → Text
trim_start p [] = []
trim_start p (c ∷ s) = let rest = trim_start p s in if p c then rest else c ∷ s

abbrev pub cons_unless : Bool → ℕ → Text → Text
cons_unless drop_it c [] = if drop_it then [] else c ∷ []
cons_unless drop_it c (d ∷ s) = c ∷ d ∷ s

abbrev pub trim_end : (ℕ → Bool) → Text → Text
trim_end p [] = []
trim_end p (c ∷ s) = cons_unless (p c) c (trim_end p s)

abbrev pub trim : Text → Text
trim s = trim_start is_whitespace (trim_end is_whitespace s)

abbrev pub split_once : ℕ → Text → Option (Text × Text)
split_once b [] = none
split_once b (c ∷ s) =
    let rest = split_once b s in
    if c == b then some ([], s) else elim rest [ none ↦ none | some (l, r) ↦ some (c ∷ l, r) ]

abbrev pub to_ascii_lowercase : Text → Text
to_ascii_lowercase = map (λ c. if leb 65 c && leb c 90 then c + 32 else c)

-- `str::contains`
abbrev pub starts_with : Text → Text → Bool
starts_with [] s = true
starts_with (c ∷ p) [] = false
starts_with (c ∷ p) (d ∷ s) = if c == d then starts_with p s else false

abbrev pub contains : Text → Text → Bool
contains needle [] = starts_with needle []
contains needle (c ∷ s) = if starts_with needle (c ∷ s) then true else contains needle s

-- `str::ends_with`
abbrev pub ends_with : Text → Text → Bool
ends_with suffix [] = text_same suffix []
ends_with suffix (c ∷ s) = if text_same suffix (c ∷ s) then true else ends_with suffix s

-- `s.rsplit(c).next()`: what stands behind the last `c`.
abbrev pub after_last_from : ℕ → Text → Text → Text
after_last_from b kept [] = kept
after_last_from b kept (c ∷ s) = after_last_from b (if c == b then [] else kept ++ c ∷ []) s

abbrev pub after_last : ℕ → Text → Text
after_last b s = after_last_from b [] s

-- `str::rsplit_once`
abbrev pub rsplit_once : ℕ → Text → Option (Text × Text)
rsplit_once b [] = none
rsplit_once b (c ∷ s) = elim (rsplit_once b s) [
  | some (l, r) ↦ some (c ∷ l, r)
  | none ↦ if c == b then some ([], s) else none
]

abbrev pub strip_prefix : Text → Text → Option Text
strip_prefix [] s = some s
strip_prefix (c ∷ p) [] = none
strip_prefix (c ∷ p) (d ∷ s) = if c == d then strip_prefix p s else none

abbrev pub cons_line : ℕ → List Text → List Text
cons_line c [] = (c ∷ []) ∷ []
cons_line c (l ∷ ls) = (c ∷ l) ∷ ls

-- `str::lines`: a line ends at a newline, with the carriage return before it.
unfoldable pub lines : Text → List Text
lines [] = []
lines (c ∷ []) = if c == line_feed then [] ∷ [] else (c ∷ []) ∷ []
lines (c ∷ d ∷ s) =
    let more = lines (d ∷ s) in
    let behind = lines s in
    if c == line_feed
    then [] ∷ more
    else if c == carriage_return && d == line_feed
    then [] ∷ behind
    else cons_line c more
