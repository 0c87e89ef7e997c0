-- ===== src/Lsp/Position/Splice.antt =====
-- `splice_range` of crates/aide-lsp/src/ops.rs: a range of a text replaced.
use aide_mcp.Base.{
  text_equal, [], ◌∷◌, none, some, zero, suc, ℕ, ◌≡◌, arith, refl, if◌then◌else◌, ◌++◌, inl, inr,
  Option, Text, ◌≤◌, ◌<◌, ◌⊎◌, ◌+◌, ◌-◌, sym, ap, ◌∙◌, Bool-cases, ltb, leb, Option-cases, ◌==◌,
  ap₂, append_assoc,
}
use aide_mcp.Lsp.Position.{
  Position, len_utf8, drop_bytes, position_to_byte_offset, bytes, column_bytes, skip_lines,
  len_utf16,
}
use aide_mcp.Base.Result.{Result, ok, err}
use aide_mcp.Lsp.Position.Agree.{len_utf8_pos, skip_lines-Splits, drop_bytes-bytes, bytes-append}
use aide_mcp.Proto.Framing.{newline}

pub record Range : Type 0 where
  pub start : Position
  pub end : Position

-- A slice at an offset that is no character boundary panics.
pub data SpliceError : Type 0 where
  invalid_pos panic : SpliceError

-- `&content[..n]`
unfoldable pub take_bytes : ℕ → Text → Option Text
take_bytes zero s = some []
take_bytes (suc n) [] = none
take_bytes (suc n) (c ∷ s) =
    let rest = take_bytes (suc n - len_utf8 c) s in
    if ltb (suc n) (len_utf8 c) then none else elim rest [ none ↦ none | some r ↦ some (c ∷ r) ]

abbrev pub joined : Text → Option Text → Option Text → Result SpliceError Text
joined replacement (some l) (some r) = ok (l ++ replacement ++ r)
joined replacement none r = err panic
joined replacement (some l) none = err panic

-- The slices at the two offsets.
unfoldable pub splice_at : Text → Text → ℕ → ℕ → Result SpliceError Text
unfolding take_bytes drop_bytes
splice_at content replacement start end =
    if ltb end start
    then err invalid_pos
    else joined replacement (take_bytes start content) (drop_bytes end content)

unfoldable pub splice_range : Text → Range → Text → Result SpliceError Text
unfolding position_to_byte_offset splice_at
splice_range content range replacement = elim (position_to_byte_offset content range.start) [
  | none ↦ err invalid_pos
  | some start ↦ elim (position_to_byte_offset content range.end) [
    | none ↦ err invalid_pos
    | some end ↦ splice_at content replacement start end
  ]
]

pub take_bytes-bytes : (pre rest : Text) → take_bytes (bytes pre) (pre ++ rest) ≡ some pre
unfolding take_bytes
take_bytes-bytes [] rest = refl
take_bytes-bytes (c ∷ pre) rest =
    let first : len_utf8 c + bytes pre ≡ suc (len_utf8 c - 1 + bytes pre) =
      omega (arith, len_utf8_pos c) in
    let second : suc (len_utf8 c - 1 + bytes pre) - len_utf8 c ≡ bytes pre =
      omega (arith, len_utf8_pos c) in
    ap (λ n. take_bytes n (c ∷ pre ++ rest)) first
    ∙ take_step (len_utf8 c - 1 + bytes pre) c (pre ++ rest) pre (omega (arith, len_utf8_pos c))
        (ap (λ n. take_bytes n (pre ++ rest)) second ∙ take_bytes-bytes pre rest)
  where
    take_step :
        (n c : ℕ) (s r : Text)
        → len_utf8 c ≤ suc n
        → take_bytes (suc n - len_utf8 c) s ≡ some r
        → take_bytes (suc n) (c ∷ s) ≡ some (c ∷ r)
    take_step n c s r h e = ground (arith, h, e)

-- The bytes of a column end at a character.
column-Splits :
    (col n : ℕ) (s : Text)
    → (pre : Text) × (rest : Text) × (s ≡ pre ++ rest) × (column_bytes col n s ≡ bytes pre)
unfolding column_bytes
column-Splits col n [] = ([], [], refl, refl)
column-Splits col n (c ∷ s) = elim (Bool-cases (leb col n)) [
  | inl reached ↦ ([], c ∷ s, refl, ground (arith, reached))
  | inr before ↦ elim (Bool-cases (c == newline)) [
    | inl ended ↦ ([], c ∷ s, refl, ground (arith, before, ended))
    | inr more ↦
        let (pre, rest, p, q) = column-Splits col (n + len_utf16 c) s in
        (c ∷ pre, rest, ap (λ r. c ∷ r) p, ground (arith, before, more, q))
  ]
]

-- Every offset that is computed for a position is a character boundary.
pub position-Splits :
    (text : Text) (p : Position) (n : ℕ)
    → position_to_byte_offset text p ≡ some n
    → (pre : Text) × (rest : Text) × (text ≡ pre ++ rest) × (n ≡ bytes pre)
unfolding position_to_byte_offset
position-Splits text p n h = elim (Option-cases (skip_lines p.line 0 text)) [
  | inl e ↦ absurd (ground (arith, h, e))
  | inr ((start, rest), e) ↦
      let (pre, split, count) = skip_lines-Splits p.line 0 text start rest e in
      let (mid, behind, split', column) = column-Splits p.character 0 rest in
      let offset : start + column_bytes p.character 0 rest ≡ n = ground (arith, h, e) in
      (
        pre ++ mid,
        behind,
        split ∙ ap (λ r. pre ++ r) split' ∙ sym (append_assoc pre mid behind),
        omega (arith, offset, column, count, bytes-append pre mid),
      )
]

-- `out` is the content with what stands between the two offsets replaced.
abbrev pub IsSplice : Text → Text → ℕ → ℕ → Text → Type 0
IsSplice content replacement start end out =
    (before : Text) × (behind : Text) × (before' : Text) × (behind' : Text) × (content
      ≡ before ++ behind)
    × (bytes before ≡ start)
    × (content ≡ before' ++ behind')
    × (bytes before' ≡ end)
    × (out ≡ before ++ replacement ++ behind')

-- For positions that have offsets: if the end comes before the start the splice is rejected as an invalid
-- position, and else it gives the content with what stands between the two offsets replaced. It never
-- slices inside a character.
pub splice_range-IsSplice :
    (content replacement : Text) (range : Range) (start end : ℕ)
    → position_to_byte_offset content range.start ≡ some start
    → position_to_byte_offset content range.end ≡ some end
    → ((end < start) × (splice_range content range replacement ≡ err invalid_pos))
      ⊎ ((out : Text) × (splice_range content range replacement ≡ ok out)
          × IsSplice content replacement start end out)
unfolding splice_range splice_at
splice_range-IsSplice content replacement range start end s e = elim (Bool-cases (ltb end start)) [
  | inl crossed ↦ inl (ground (arith, crossed), rw (s, splice_range) (rw e (rw crossed refl)))
  | inr ordered ↦
      let (before, behind, p, n) = position-Splits content range.start start s in
      let (before', behind', q, m) = position-Splits content range.end end e in
      let left : take_bytes start content ≡ some before =
        ap₂ take_bytes n p ∙ take_bytes-bytes before behind in
      let right : drop_bytes end content ≡ some behind' =
        ap₂ drop_bytes m q ∙ drop_bytes-bytes before' behind' in
      inr (
        before ++ replacement ++ behind',
        rw (s, splice_range) (rw e (rw ordered (ap₂ (joined replacement) left right))),
        (before, behind, before', behind', p, sym n, q, sym m, refl),
      )
]
