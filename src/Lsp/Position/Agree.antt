-- ===== src/Lsp/Position/Agree.antt =====
-- Where the two translations agree, and where they do not.
use aide_mcp.Base.{
  text_equal, [], ◌∷◌, none, some, zero, suc, ℕ, ◌≡◌, arith, refl, if◌then◌else◌, inl, inr, List,
  Option, Text, ◌≤◌, ◌+◌, ap, ◌∙◌, Bool-cases, ◌==◌, get_elem?, ltb, Option-cases, ◌++◌, sym,
  append_assoc, ap₂, ◌-◌, ◌<◌,
}
use aide_mcp.Lsp.Position.{
  scan_column, next_line, skip_lines, newline, column_bytes, offsets_from, len_utf16, len_utf8,
  bytes, drop_bytes, Position, byte_offset, position_to_byte_offset, compute_line_offsets,
}

-- The length of the first line of a text, in UTF-16 units.
abbrev pub width : Text → ℕ
width [] = 0
width (c ∷ s) = let rest = width s in if c == newline then 0 else len_utf16 c + rest

scan-column_bytes :
    (col n at : ℕ) (s : Text)
    → n ≤ col
    → col ≤ n + width s
    → scan_column col n at s ≡ some (at + column_bytes col n s)
unfolding scan_column column_bytes
scan-column_bytes col n at [] h k = ground arith
scan-column_bytes col n at (c ∷ s) h k = elim (Bool-cases (ltb col (n + len_utf16 c))) [
  | inl over ↦ ground (arith, over, column_over col (n + len_utf16 c) s)
  | inr under ↦ ground (arith, under, scan-column_bytes col (n + len_utf16 c) (at + len_utf8 c) s)
]
  where
    column_over : (col n : ℕ) (s : Text) → col ≤ n → column_bytes col n s ≡ 0
    column_over col n [] h = refl
    column_over col n (c ∷ s) h = ground (arith, h)

after_next : Option (ℕ × Text) → List ℕ
after_next none = []
after_next (some (at, s)) = at ∷ offsets_from at s

offsets-next_line : (at : ℕ) (s : Text) → offsets_from at s ≡ after_next (next_line at s)
unfolding next_line after_next
offsets-next_line at [] = refl
offsets-next_line at (c ∷ s) = elim (Bool-cases (c == newline)) [
  | inl e ↦ let is_newline : c ≡ 10 = ground (arith, e) in rw is_newline refl
  | inr e ↦ rw e (offsets-next_line (at + len_utf8 c) s)
]

fst_of : Option (ℕ × Text) → Option ℕ
fst_of none = none
fst_of (some (at, s)) = some at

-- The table of line offsets holds what the loop over the lines computes.
line_offset :
    (line at : ℕ) (s : Text)
    → get_elem? (at ∷ offsets_from at s) line ≡ fst_of (skip_lines line at s)
unfolding skip_lines fst_of after_next
line_offset zero at s = refl
line_offset (suc line) at s = elim (Option-cases (next_line at s)) [
  | inl e ↦
      ap (λ l. get_elem? l line) (offsets-next_line at s ∙ ap after_next e)
      ∙ rw (e, skip_lines) refl
  | inr ((at', s'), e) ↦
      ap (λ l. get_elem? l line) (offsets-next_line at s ∙ ap after_next e)
      ∙ line_offset line at' s'
      ∙ rw (e, skip_lines) refl
]

pub bytes-append : (s t : Text) → bytes (s ++ t) ≡ bytes s + bytes t
bytes-append [] t = omega arith
bytes-append (c ∷ s) t = omega (arith, bytes-append s t)

pub len_utf8_pos : (c : ℕ) → 1 ≤ len_utf8 c
len_utf8_pos c = ground arith

-- The bytes of a prefix are dropped at a boundary.
pub drop_bytes-bytes : (pre rest : Text) → drop_bytes (bytes pre) (pre ++ rest) ≡ some rest
unfolding drop_bytes
drop_bytes-bytes [] rest = refl
drop_bytes-bytes (c ∷ pre) rest =
    let first : len_utf8 c + bytes pre ≡ suc (len_utf8 c - 1 + bytes pre) =
      omega (arith, len_utf8_pos c) in
    let second : suc (len_utf8 c - 1 + bytes pre) - len_utf8 c ≡ bytes pre =
      omega (arith, len_utf8_pos c) in
    ap (λ n. drop_bytes n (c ∷ pre ++ rest)) first
    ∙ drop_step (len_utf8 c - 1 + bytes pre) c (pre ++ rest) (omega (arith, len_utf8_pos c))
    ∙ ap (λ n. drop_bytes n (pre ++ rest)) second
    ∙ drop_bytes-bytes pre rest
  where
    drop_step :
        (n c : ℕ) (s : Text)
        → len_utf8 c ≤ suc n
        → drop_bytes (suc n) (c ∷ s) ≡ drop_bytes (suc n - len_utf8 c) s
    drop_step n c s h = ground (arith, h)

-- A suffix that stands behind a prefix of so many bytes.
abbrev pub Splits : Text → ℕ → ℕ → Text → Type 0
Splits s at at' rest = (pre : Text) × (s ≡ pre ++ rest) × (at' ≡ at + bytes pre)

next_line-Splits :
    (at : ℕ) (s : Text) (at' : ℕ) (rest : Text)
    → next_line at s ≡ some (at', rest)
    → Splits s at at' rest
unfolding next_line
next_line-Splits at [] at' rest h = absurd (ground (arith, h))
next_line-Splits at (c ∷ s) at' rest h = elim (Bool-cases (c == newline)) [
  | inl e ↦ (c ∷ [], ground (arith, h, e), ground (arith, h, e))
  | inr e ↦
      let (pre, p, q) = next_line-Splits (at + len_utf8 c) s at' rest (ground (arith, h, e)) in
      (c ∷ pre, ap (λ r. c ∷ r) p, omega (arith, q))
]

pub skip_lines-Splits :
    (line at : ℕ) (s : Text) (at' : ℕ) (rest : Text)
    → skip_lines line at s ≡ some (at', rest)
    → Splits s at at' rest
unfolding skip_lines
skip_lines-Splits zero at s at' rest h = ([], ground (arith, h), ground (arith, h))
skip_lines-Splits (suc line) at s at' rest h = elim (Option-cases (next_line at s)) [
  | inl e ↦ absurd (ground (arith, h, e))
  | inr ((mid, s'), e) ↦
      let (pre, p, q) = next_line-Splits at s mid s' e in
      let (pre', p', q') = skip_lines-Splits line mid s' at' rest (ground (arith, h, e)) in
      (
        pre ++ pre',
        p ∙ ap (λ r. pre ++ r) p' ∙ sym (append_assoc pre pre' rest),
        omega (arith, q, q', bytes-append pre pre'),
      )
]

-- A column that lies on its line, end included.
abbrev pub OnLine : Text → Position → Type 0
OnLine text p =
    (start : ℕ) (rest : Text)
    → skip_lines p.line 0 text ≡ some (start, rest)
    → p.character ≤ width rest

-- The two translations agree at every position that lies on its line, and on lines past the end.
pub byte_offset-position :
    (text : Text) (p : Position)
    → OnLine text p
    → byte_offset (compute_line_offsets text) text p ≡ position_to_byte_offset text p
unfolding byte_offset position_to_byte_offset compute_line_offsets fst_of
byte_offset-position text p on = elim (Option-cases (skip_lines p.line 0 text)) [
  | inl e ↦
      rw (line_offset p.line 0 text ∙ ap fst_of e, byte_offset)
        (rw (e, position_to_byte_offset) refl)
  | inr ((start, rest), e) ↦
      let (pre, split, count) = skip_lines-Splits p.line 0 text start rest e in
      let dropped : drop_bytes start text ≡ some rest =
        ap₂ drop_bytes (omega (arith, count)) split ∙ drop_bytes-bytes pre rest in
      rw (line_offset p.line 0 text ∙ ap fst_of e, byte_offset)
        (rw (dropped, byte_offset)
          (rw (e, position_to_byte_offset)
            (scan-column_bytes p.character 0 start rest (omega arith)
              (omega (arith, on start rest e)))))
]

-- Where they differ: for a column past the end of a line that ends in a newline, both give an offset,
-- and that of `byte_offset` lies behind that of `position_to_byte_offset`.
pub past_end_of_line :
    (text : Text) (p : Position) (start : ℕ) (rest : Text) (behind : ℕ × Text)
    → skip_lines p.line 0 text ≡ some (start, rest)
    → next_line start rest ≡ some behind
    → width rest < p.character
    → (n : ℕ) × (m : ℕ) × (position_to_byte_offset text p ≡ some n)
      × (byte_offset (compute_line_offsets text) text p ≡ some m)
      × (n < m)
unfolding byte_offset position_to_byte_offset compute_line_offsets fst_of scan_column column_bytes
    next_line
past_end_of_line text p start rest behind e next beyond =
    let (pre, split, count) = skip_lines-Splits p.line 0 text start rest e in
    let dropped : drop_bytes start text ≡ some rest =
      ap₂ drop_bytes (omega (arith, count)) split ∙ drop_bytes-bytes pre rest in
    let (m, scanned, past) =
      scan_past p.character 0 start rest behind (omega arith) next (omega arith) in
    (
      start + column_bytes p.character 0 rest,
      m,
      rw (e, position_to_byte_offset) refl,
      rw (line_offset p.line 0 text ∙ ap fst_of e, byte_offset) (rw (dropped, byte_offset) scanned),
      past,
    )
  where
    scan_from :
        (col n at : ℕ) (s : Text) → n ≤ col → (m : ℕ) × (scan_column col n at s ≡ some m) × (at ≤ m)
    scan_from col n at [] h = (at, ground (arith, h), omega arith)
    scan_from col n at (c ∷ s) h = elim (Bool-cases (n == col)) [
      | inl here ↦ (at, rw here refl, omega arith)
      | inr not_here ↦ elim (Bool-cases (ltb col (n + len_utf16 c))) [
        | inl over ↦ (at + len_utf8 c, rw not_here (rw over refl), omega arith)
        | inr under ↦
            let (m, scanned, more) =
              scan_from col (n + len_utf16 c) (at + len_utf8 c) s (ground (arith, under)) in
            (m, rw not_here (rw under scanned), omega (arith, more))
      ]
    ]

    scan_past :
        (col n at : ℕ) (s : Text) (behind : ℕ × Text)
        → n ≤ col
        → next_line at s ≡ some behind
        → n + width s < col
        → (m : ℕ) × (scan_column col n at s ≡ some m) × (at + column_bytes col n s < m)
    scan_past col n at [] behind h next beyond = absurd (ground (arith, next))
    scan_past col n at (c ∷ s) behind h next beyond = elim (Bool-cases (c == newline)) [
      | inl e ↦
          let (m, scanned, more) = scan_from col (n + 1) (at + 1) s (omega arith) in
          (m, ground (arith, e, scanned, beyond), ground (arith, e, more, beyond))
      | inr e ↦
          let (m, scanned, more) =
            scan_past col (n + len_utf16 c) (at + len_utf8 c) s behind (ground (arith, e, beyond))
              (ground (arith, e, next)) (ground (arith, e, beyond)) in
          (m, ground (arith, e, scanned, beyond), ground (arith, e, more, beyond))
    ]
