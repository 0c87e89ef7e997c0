-- ===== src/Proto/Framing/RoundTrip.antt =====
-- A message that is written is read back, and the stream stands behind it.
use aide_mcp.Base.{
  text_equal, [], ◌∷◌, false, ℕ, ◌≡◌, arith, refl, ◌++◌, Option, Bool, Text, ◌<◌, ◌∙◌, ◌==◌, All,
  append_assoc, none, some, true, suc, inl, inr, List, ◌≤◌, ◌+◌, codes, sym, ap, drop, take,
  List-cases, All-weaken, length, subst, append-nil, leb, All-append, length-append, ap₂, All-none,
}
use aide_mcp.Proto.Framing.{
  read_headers, newline, header_of, blank, read_body, bad, next, print, header, read_exact,
  read_message, named, write_message, usize_limit, print_from, trimmed_header, parsed, parse_usize,
}
use aide_mcp.Proto.Framing.Decimal.{IsDigit, parse-print, length-print_from, print_from-IsDigit}
use aide_mcp.Base.Result.{err, ok}
use aide_mcp.Base.Strings.{
  trim_end, trim_start, is_whitespace, trim, carriage_return, cons_unless, is_line_end,
}

-- The bytes of a header line but its newline.
abbrev pub IsInLine : ℕ → Type 0
IsInLine c = (c == newline) ≡ false

module _ (decode : Text → Option Text) where
  -- A line is collected up to its newline.
  read_headers-line :
      (line s bytes : Text) (content_length : Option ℕ)
      → All IsInLine s
      → read_headers decode line content_length (s ++ newline ∷ bytes)
        ≡ elim (header_of decode content_length (line ++ (s ++ newline ∷ []))) [
          | blank ↦ read_body content_length bytes
          | bad e ↦ err e
          | next n ↦ read_headers decode [] n bytes
        ]
  unfolding read_headers
  read_headers-line [] [] bytes content_length h = refl
  read_headers-line (b ∷ line) [] bytes content_length h = refl
  read_headers-line [] (c ∷ s) bytes content_length (hc, h) =
      rw hc (read_headers-line (c ∷ []) s bytes content_length h)
  read_headers-line (b ∷ line) (c ∷ s) bytes content_length (hc, h) = rw hc (
      read_headers-line ((b ∷ line) ++ c ∷ []) s bytes content_length h
      ∙ rw (append_assoc line (c ∷ []) (s ++ newline ∷ [])) refl)

-- Nothing is trimmed from characters that are to stay.
trim_end-keeps :
    (p : ℕ → Bool) (s t : Text)
    → All (λ c. p c ≡ false) s
    → trim_end p t ≡ []
    → trim_end p (s ++ t) ≡ s
trim_end-keeps p [] t h e = e
trim_end-keeps p (c ∷ s) t (hc, h) e = rw (trim_end-keeps p s t h e) (kept s)
  where
    kept : (s : Text) → cons_unless (p c) c s ≡ c ∷ s
    kept [] = rw hc refl
    kept (d ∷ s) = refl

trim_start-keeps : (p : ℕ → Bool) (s : Text) → All (λ c. p c ≡ false) s → trim_start p s ≡ s
trim_start-keeps p [] h = refl
trim_start-keeps p (c ∷ s) (hc, h) = rw hc refl

digit_kept :
    (c : ℕ)
    → IsDigit c
    → (is_whitespace c ≡ false) × (is_line_end c ≡ false) × IsInLine c × (c < 128)
digit_kept c h = ground (arith, h)

length-print : (n : ℕ) → (d : ℕ) × (s : Text) × (print n ≡ d ∷ s) × All IsDigit (d ∷ s)
unfolding print
length-print n = elim (List-cases (print n)) [
  | inl e ↦
      let one_more : suc n ≡ n + 1 = omega arith in
      let some_digit = subst (λ f. 1 ≤ length (print_from f n)) one_more (length-print_from n n) in
      absurd (omega (arith, some_digit, ap (length {0}) e))
  | inr (d, s, e) ↦ (d, s, e, subst (All IsDigit) e (print_from-IsDigit (n + 1) n))
]

trim_digits : (d : ℕ) (s : Text) → All IsDigit (d ∷ s) → trim (b' ' ∷ d ∷ s) ≡ d ∷ s
trim_digits d s h =
    let plain =
      All-weaken IsDigit (λ c. is_whitespace c ≡ false) (d ∷ s) (λ c e. (digit_kept c e).0) h in
    let ended : trim_end is_whitespace (d ∷ s) ≡ d ∷ s =
      ap (trim_end is_whitespace) (sym (append-nil (d ∷ s)))
      ∙ trim_end-keeps is_whitespace (d ∷ s) [] plain refl in
    ap (λ r. trim_start is_whitespace (cons_unless true b' ' r)) ended
    ∙ trim_start-keeps is_whitespace (d ∷ s) plain

abbrev field : Text
field = codes "Content-Length: "

-- The header line that `write_message` writes gives the length.
header-length :
    (n : ℕ)
    → n < usize_limit
    → header none (field ++ print n ++ carriage_return ∷ newline ∷ []) ≡ next (some n)
unfolding header trimmed_header named
header-length n small =
    let (d, s, e, digits) = length-print n in
    let plain : All (λ c. is_line_end c ≡ false) (field ++ print n) =
      subst (λ t. All (λ c. is_line_end c ≡ false) (field ++ t)) (sym e)
        (All-append (λ c. is_line_end c ≡ false) field (d ∷ s) (All-none is_line_end field refl)
          (All-weaken IsDigit (λ c. is_line_end c ≡ false) (d ∷ s) (λ c h. (digit_kept c h).1)
            digits)) in
    ap (trimmed_header none)
      (trim_end-keeps is_line_end (field ++ print n) (carriage_return ∷ newline ∷ []) plain refl)
    ∙ ap (λ t. trimmed_header none (field ++ t)) e
    ∙ ap (λ t. parsed (parse_usize t)) (trim_digits d s digits)
    ∙ ap (λ t. parsed (parse_usize t)) (sym e)
    ∙ ap parsed (parse-print n small)

drop-append {ℓ} : {A : Type ℓ} (xs ys : List A) → drop (length xs) (xs ++ ys) ≡ ys
drop-append [] ys = refl
drop-append (x ∷ xs) ys = drop-append xs ys

take-append_all {ℓ} : {A : Type ℓ} (xs ys : List A) → take (length xs) (xs ++ ys) ≡ xs
take-append_all [] ys = refl
take-append_all (x ∷ xs) ys = ap (λ r. x ∷ r) (take-append_all xs ys)

read_exact-body :
    (bytes rest : Text) → read_body (some (length bytes)) (bytes ++ rest) ≡ ok (bytes, rest)
unfolding read_body read_exact
read_exact-body bytes rest =
    let enough : leb (length bytes) (length (bytes ++ rest)) ≡ true =
      ground (arith, length-append bytes rest) in
    rw enough (ap₂ (λ a b. ok (a, b)) (take-append_all bytes rest) (drop-append bytes rest))

-- For every decoding that leaves ASCII alone, reading what was written gives the message back and
-- leaves the stream behind it, if the length of the message is a `usize`.
pub read-write :
    (decode : Text → Option Text)
    → ((s : Text) → All (λ c. c < 128) s → decode s ≡ some s)
    → (bytes rest : Text) → length bytes < usize_limit
    → read_message decode (write_message bytes ++ rest) ≡ ok (bytes, rest)
unfolding read_message write_message header_of header
read-write decode ascii bytes rest small =
    let n = length bytes in
    let line = field ++ print n ++ carriage_return ∷ [] in
    let (d, s, e, digits) = length-print n in
    let in_line : All IsInLine line =
      All-append IsInLine (field ++ print n) (carriage_return ∷ [])
        (All-append IsInLine field (print n) (All-none (λ c. c == newline) field refl) (
          subst (All IsInLine) (sym e)
            (All-weaken IsDigit IsInLine (d ∷ s) (λ c h. (digit_kept c h).2) digits)))
        (refl, tt) in
    let plain : All (λ c. c < 128) (field ++ print n ++ carriage_return ∷ newline ∷ []) =
      All-append (λ c. c < 128) (field ++ print n) (carriage_return ∷ newline ∷ [])
        (All-append (λ c. c < 128) field (print n)
          (All-weaken (λ c. leb 128 c ≡ false) (λ c. c < 128) field (λ c h. ground (arith, h))
            (All-none (leb 128) field refl))
          (subst (All (λ c. c < 128)) (sym e)
            (All-weaken IsDigit (λ c. c < 128) (d ∷ s) (λ c h. (digit_kept c h).3) digits)))
        (omega arith, (omega arith, tt)) in
    let shape : write_message bytes ++ rest
        ≡ line ++ newline ∷ carriage_return ∷ newline ∷ (bytes ++ rest) =
      append_assoc (field ++ print n)
        (carriage_return ∷ newline ∷ carriage_return ∷ newline ∷ bytes) rest
      ∙ sym (
          append_assoc (field ++ print n) (carriage_return ∷ [])
            (newline ∷ carriage_return ∷ newline ∷ (bytes ++ rest))) in
    let first : header_of decode none ([] ++ (line ++ newline ∷ [])) ≡ next (some n) =
      ap (header_of decode none)
        (append_assoc (field ++ print n) (carriage_return ∷ []) (newline ∷ []))
      ∙ rw (ascii (field ++ print n ++ carriage_return ∷ newline ∷ []) plain, header_of)
          (header-length n small) in
    let second : header_of decode (some n) ([] ++ (carriage_return ∷ [] ++ newline ∷ [])) ≡ blank =
      rw (ascii (carriage_return ∷ newline ∷ []) (omega arith, (omega arith, tt)), header_of)
        refl in
    ap (read_headers decode [] none) shape
    ∙ read_headers-line decode [] line (carriage_return ∷ newline ∷ (bytes ++ rest)) none in_line
    ∙ rw first (
        read_headers-line decode [] (carriage_return ∷ []) (bytes ++ rest) (some n) (refl, tt)
        ∙ rw second (read_exact-body bytes rest))
