-- ===== src/Lsp/Position.antt =====
-- The two translations of an LSP position to a byte offset in crates/aide-lsp/src/ops.rs:
-- `position_to_byte_offset` and `byte_offset` with `compute_line_offsets`. A text is the list of its
-- characters; `&text[n..]` is `drop_bytes`, which is `none` where Rust panics.
pub mod Agree
pub mod Splice
use aide_mcp.Base.{
  text_equal, [], ◌∷◌, none, some, zero, suc, ℕ, if◌then◌else◌, List, Option, Text, ◌+◌, ◌-◌, ltb,
  ◌==◌, leb, get_elem?, ◌≡◌, ◌<◌, ◌⊎◌,
}

pub record Position : Type 0 where
  pub line : ℕ
  pub character : ℕ

-- The order of positions in a document.
abbrev pub IsBefore : Position → Position → Type 0
IsBefore p q = (p.line < q.line) ⊎ ((p.line ≡ q.line) × (p.character < q.character))

abbrev pub newline : ℕ
newline = 10

-- `char::len_utf8` and `char::len_utf16`
abbrev pub len_utf8 : ℕ → ℕ
len_utf8 c = if ltb c 0x80 then 1 else if ltb c 0x800 then 2 else if ltb c 0x10000 then 3 else 4

abbrev pub len_utf16 : ℕ → ℕ
len_utf16 c = if ltb c 0x10000 then 1 else 2

-- `str::len`
abbrev pub bytes : Text → ℕ
bytes [] = 0
bytes (c ∷ s) = len_utf8 c + bytes s

unfoldable pub drop_bytes : ℕ → Text → Option Text
drop_bytes zero s = some s
drop_bytes (suc n) [] = none
drop_bytes (suc n) (c ∷ s) =
    let rest = drop_bytes (suc n - len_utf8 c) s in if ltb (suc n) (len_utf8 c) then none else rest

-- The rest behind the next newline, with its offset.
unfoldable pub next_line : ℕ → Text → Option (ℕ × Text)
next_line at [] = none
next_line at (c ∷ s) =
    if c == newline then some (at + len_utf8 c, s) else next_line (at + len_utf8 c) s

-- The `while current_line < position.line` loop.
unfoldable pub skip_lines : ℕ → ℕ → Text → Option (ℕ × Text)
unfolding next_line
skip_lines zero at s = some (at, s)
skip_lines (suc n) at s = elim (next_line at s) [
  | none ↦ none
  | some (at', s') ↦ skip_lines n at' s'
]

-- The loop over the characters of the line: the bytes before the column.
unfoldable pub column_bytes : ℕ → ℕ → Text → ℕ
column_bytes col n [] = 0
column_bytes col n (c ∷ s) =
    let rest = len_utf8 c + column_bytes col (n + len_utf16 c) s in
    if leb col n then 0 else if c == newline then 0 else rest

unfoldable pub position_to_byte_offset : Text → Position → Option ℕ
unfolding skip_lines column_bytes
position_to_byte_offset content p = elim (skip_lines p.line 0 content) [
  | none ↦ none
  | some (start, rest) ↦ some (start + column_bytes p.character 0 rest)
]

abbrev pub offsets_from : ℕ → Text → List ℕ
offsets_from at [] = []
offsets_from at (c ∷ s) =
    let rest = offsets_from (at + len_utf8 c) s in if c == newline then (at + 1) ∷ rest else rest

unfoldable pub compute_line_offsets : Text → List ℕ
compute_line_offsets text = 0 ∷ offsets_from 0 text

-- The `for (byte_idx, ch) in rest.char_indices()` loop and what follows it.
unfoldable pub scan_column : ℕ → ℕ → ℕ → Text → Option ℕ
scan_column col n at [] = if leb n col then some at else none
scan_column col n at (c ∷ s) =
    let rest = scan_column col (n + len_utf16 c) (at + len_utf8 c) s in
    if n == col then some at else if ltb col (n + len_utf16 c) then some (at + len_utf8 c) else rest

unfoldable pub byte_offset : List ℕ → Text → Position → Option ℕ
unfolding scan_column drop_bytes
byte_offset offsets text p = elim (get_elem? offsets p.line) [
  | none ↦ none
  | some start ↦ elim (drop_bytes start text) [
    | none ↦ none
    | some rest ↦ scan_column p.character 0 start rest
  ]
]
