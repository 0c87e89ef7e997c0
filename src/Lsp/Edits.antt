-- ===== src/Lsp/Edits.antt =====
-- `apply_text_edits` of crates/aide-lsp/src/ops.rs: the edits that a language server answers, applied to
-- one text from the last to the first.
pub mod Order
pub mod Pieces
use aide_mcp.Base.{
  text_equal, [], ◌∷◌, none, some, ℕ, Bool, if◌then◌else◌, List, Text, ltb, ◌==◌, ◌&&◌, ◌||◌,
}
use aide_mcp.Base.Sort.{sort_by}
use aide_mcp.Base.Result.{Result, ok, ◌>>=◌}
use aide_mcp.Lsp.Position.{bytes, byte_offset, compute_line_offsets, drop_bytes}
use aide_mcp.Lsp.Position.Splice.{Range, SpliceError, take_bytes, joined}

pub record TextEdit : Type 0 where
  pub range : Range
  pub new_text : Text

-- `a` belongs strictly behind `b`: it starts before it.
abbrev pub starts_before : TextEdit → TextEdit → Bool
starts_before a b =
    ltb a.range.start.line b.range.start.line
    || ((a.range.start.line == b.range.start.line)
        && ltb a.range.start.character b.range.start.character)

-- `String::replace_range`, which panics at an offset inside a character.
unfoldable pub replace_range : Text → ℕ → ℕ → Text → Result SpliceError Text
unfolding take_bytes drop_bytes
replace_range out start end new = joined new (take_bytes start out) (drop_bytes end out)

-- The body of the loop, its `continue`s included.
unfoldable pub apply_one : Text → TextEdit → Text → Result SpliceError Text
unfolding byte_offset compute_line_offsets replace_range
apply_one text edit out = elim (byte_offset (compute_line_offsets text) text edit.range.start) [
  | none ↦ ok out
  | some start ↦ elim (byte_offset (compute_line_offsets text) text edit.range.end) [
    | none ↦ ok out
    | some end ↦
        if ltb end start || ltb (bytes out) end
        then ok out
        else replace_range out start end edit.new_text
  ]
]

unfoldable pub apply_all : Text → List TextEdit → Text → Result SpliceError Text
unfolding apply_one
apply_all text [] out = ok out
apply_all text (e ∷ es) out = apply_one text e out >>= apply_all text es

unfoldable pub apply_text_edits : Text → List TextEdit → Result SpliceError Text
unfolding apply_all
apply_text_edits text edits = apply_all text (sort_by starts_before edits) text
