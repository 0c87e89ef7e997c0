-- ===== src/Lang/TextDiag.antt =====
-- The parser of diagnostics in crates/aide-lang/src/languages/textdiag.rs:
-- `file:line[:col][: level]: message`.
pub mod Files
pub mod Parts
pub mod RoundTrip
use aide_mcp.Base.{
  text_equal, [], ◌∷◌, none, some, ℕ, if◌then◌else◌, List, Option, Bool, Text, codes, text_same,
  length, drop, ltb, ◌==◌, ◌^◌, ◌++◌, ◌||◌, ◌&&◌, any,
}
use aide_mcp.Base.Strings.{
  starts_with, strip_prefix, trim, trim_start, is_whitespace, split_once, lines,
}
use aide_mcp.Proto.Framing.{is_digit, parse_usize}
use aide_mcp.Lang.Diagnostics.{Diagnostic}

abbrev pub colon : ℕ
colon = 58

abbrev pub space : ℕ
space = 32

-- `str::find`, with the text split there.
unfoldable pub find : Text → Text → Option (Text × Text)
find pattern [] = if starts_with pattern [] then some ([], []) else none
find pattern (c ∷ s) =
    let later = find pattern s in
    if starts_with pattern (c ∷ s)
    then some ([], c ∷ s)
    else elim later [ none ↦ none | some (before, at) ↦ some (c ∷ before, at) ]

-- `trim_start_matches("./")`
unfoldable pub trim_here : Text → Text
trim_here [] = []
trim_here (c ∷ []) = c ∷ []
trim_here (c ∷ d ∷ s) = let rest = trim_here s in if c == 46 && d == 47 then rest else c ∷ d ∷ s

-- The end of a file name that an extension gives: the text before it, and the text from its colon on.
abbrev pub candidate : Text → Option (Text × Text) → Option (Text × Text)
candidate ext none = none
candidate ext (some (before, at)) =
    let file = before ++ ext in
    if any (λ c. c == space) file then none else some (file, drop (length ext) at)

-- The earlier end of the two; of equal ones the first.
abbrev pub earliest : Option (Text × Text) → Option (Text × Text) → Option (Text × Text)
earliest best none = best
earliest none (some q) = some q
earliest (some p) (some q) = if ltb (length q.0) (length p.0) then some q else some p

unfoldable pub scan_exts : List Text → Text → Option (Text × Text) → Option (Text × Text)
unfolding find
scan_exts [] line best = best
scan_exts (ext ∷ exts) line best =
    scan_exts exts line (earliest best (candidate ext (find (ext ++ colon ∷ []) line)))

unfoldable pub split_file : Text → List Text → Option (Text × Text)
unfolding scan_exts trim_here
split_file line exts = elim (scan_exts exts line none) [
  | none ↦ none
  | some (file, rest) ↦ some (trim_here file, rest)
]

-- The leading digits, and what follows.
abbrev pub cons_first : ℕ → Text × Text → Text × Text
cons_first c p = (c ∷ p.0, p.1)

unfoldable pub span_digits : Text → Text × Text
span_digits [] = ([], [])
span_digits (c ∷ s) =
    let rest = span_digits s in if is_digit c then cons_first c rest else ([], c ∷ s)

-- `str::parse::<u32>`
abbrev pub as_u32 : Option ℕ → Option ℕ
as_u32 none = none
as_u32 (some n) = if ltb n (2 ^ 32) then some n else none

unfoldable pub parse_u32 : Text → Option ℕ
unfolding parse_usize
parse_u32 s = as_u32 (parse_usize s)

abbrev pub with_rest : Option ℕ → Text → Option (ℕ × Text)
with_rest none rest = none
with_rest (some n) rest = some (n, rest)

unfoldable pub number_of : Text × Text → Option (ℕ × Text)
unfolding parse_u32
number_of ([], rest) = none
number_of (c ∷ digits, rest) = with_rest (parse_u32 (c ∷ digits)) rest

unfoldable pub take_number : Text → Option (ℕ × Text)
unfolding span_digits number_of
take_number s = number_of (span_digits s)

abbrev pub without_colon : Text → Text
without_colon [] = []
without_colon (c ∷ s) = if c == colon then s else c ∷ s

-- The column, if there is one, and what stands behind its colon.
abbrev pub column_of : Text → Option (ℕ × Text) → Option ℕ × Text
column_of rest none = (none, rest)
column_of rest (some (col, after)) = (some col, without_colon after)

-- The level and the message; `none` drops the line.
abbrev pub leveled : Bool → Text → Text → Text → Option (Text × Text)
leveled require_level rest token msg =
    if text_same token (codes "error") || text_same token (codes "fatal error")
    then some (codes "error", trim msg)
    else if text_same token (codes "warning")
    then some (codes "warning", trim msg)
    else if text_same token (codes "note")
    then some (codes "note", trim msg)
    else if require_level
    then none
    else some (codes "error", rest)

abbrev pub level_of : Bool → Text → Option (Text × Text) → Option (Text × Text)
level_of require_level rest none = if require_level then none else some (codes "error", rest)
level_of require_level rest (some (token, msg)) = leveled require_level rest (trim token) msg

abbrev pub diagnostic : Text → Text → ℕ → Option ℕ → Text → Text → Option Diagnostic
diagnostic line file line_no column level [] = none
diagnostic line file line_no column level (c ∷ message) = some (record {
  level = level;
  code = none;
  message = c ∷ message;
  file = some file;
  line_start = some line_no;
  line_end = none;
  column_start = column;
  column_end = none;
  enclosing_symbol = none;
  rendered = some line;
})

abbrev pub with_level : Text → Text → ℕ → Option ℕ → Option (Text × Text) → Option Diagnostic
with_level line file line_no column none = none
with_level line file line_no column (some (level, message)) =
    diagnostic line file line_no column level (trim message)

abbrev pub parse_tail : Text → Text → Bool → ℕ → Option ℕ × Text → Option Diagnostic
parse_tail line file require_level line_no (column, rest) =
    let rest' = trim_start is_whitespace rest in
    with_level line file line_no column (level_of require_level rest' (split_once colon rest'))

abbrev pub strip_colon : Text → Option Text
strip_colon = strip_prefix (colon ∷ [])

unfoldable pub parse_one : Text → List Text → Bool → Option Diagnostic
unfolding split_file take_number
parse_one line exts require_level = elim (split_file line exts) [
  | none ↦ none
  | some (file, behind_file) ↦ elim (strip_colon behind_file) [
    | none ↦ none
    | some rest ↦ elim (take_number rest) [
      | none ↦ none
      | some (line_no, behind_line) ↦ elim (strip_colon behind_line) [
        | none ↦ none
        | some rest' ↦
            parse_tail line file require_level line_no (column_of rest' (take_number rest'))
      ]
    ]
  ]
]

abbrev pub parse_lines : List Text → List Text → Bool → List Diagnostic
parse_lines [] exts require_level = []
parse_lines (raw ∷ raws) exts require_level =
    let rest = parse_lines raws exts require_level in
    elim (parse_one (trim raw) exts require_level) [ none ↦ rest | some d ↦ d ∷ rest ]

unfoldable pub parse_colon_diagnostics : Text → List Text → Bool → List Diagnostic
unfolding lines parse_one
parse_colon_diagnostics output exts require_level = parse_lines (lines output) exts require_level
