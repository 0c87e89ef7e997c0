-- ===== src/Proto/Framing/Decimal.antt =====
-- A printed number is read back.
use aide_mcp.Base.{
  text_equal, [], ◌∷◌, some, true, false, zero, suc, ℕ, ◌≡◌, arith, ◌++◌, inl, inr, Text, ◌≤◌, ◌<◌,
  ◌+◌, ◌-◌, ap, ◌∙◌, Bool-cases, All, ◌*◌, ltb, length, All-append, ◌/◌, ◌==◌, ◌%◌, length-append,
  subst,
}
use aide_mcp.Proto.Framing.{is_digit, print_from, parse_digits, parse_usize, usize_limit, print}

abbrev pub IsDigit : ℕ → Type 0
IsDigit c = is_digit c ≡ true

pub print_from-IsDigit : (f n : ℕ) → All IsDigit (print_from f n)
unfolding print_from
print_from-IsDigit zero n = tt
print_from-IsDigit (suc f) n = elim (Bool-cases (ltb n 10)) [
  | inl small ↦ rw small (ground (arith, small), tt)
  | inr big ↦ rw big (
      All-append IsDigit (print_from f (n / 10)) _ (print_from-IsDigit f (n / 10))
        (ground arith, tt))
]

parse_digits-snoc :
    (a n c : ℕ) (s : Text)
    → parse_digits a s ≡ some n
    → IsDigit c
    → 10 * n + (c - 48) < usize_limit
    → parse_digits a (s ++ c ∷ []) ≡ some (10 * n + (c - 48))
unfolding parse_digits
parse_digits-snoc a n c [] h d small =
    let same : a ≡ n = cc h in rw (same, d) (ground (arith, small))
parse_digits-snoc a n c (e ∷ s) h d small = elim (Bool-cases (is_digit e)) [
  | inr other ↦ absurd (ground (arith, rw other at h))
  | inl digit ↦ elim (Bool-cases (ltb (10 * a + (e - 48)) usize_limit)) [
    | inr over ↦ absurd (ground (arith, rw (digit, over) at h))
    | inl within ↦
        rw (digit, within)
          (parse_digits-snoc (10 * a + (e - 48)) n c s (rw (digit, within) at h) d small)
  ]
]

parse-print_from : (f n : ℕ) → n < f → n < usize_limit → parse_digits 0 (print_from f n) ≡ some n
unfolding print_from parse_digits
parse-print_from zero n h small = absurd (omega arith)
parse-print_from (suc f) n h small = elim (Bool-cases (ltb n 10)) [
  | inl one ↦ rw one (single n (ground (arith, one)))
  | inr many ↦
      let front : parse_digits 0 (print_from f (n / 10)) ≡ some (n / 10) =
        parse-print_from f (n / 10) (ground (arith, many, h)) (omega (arith, small)) in
      let whole : 10 * (n / 10) + (48 + n % 10 - 48) ≡ n = omega arith in
      rw many (
        parse_digits-snoc 0 (n / 10) (48 + n % 10) (print_from f (n / 10)) front (ground arith)
          (omega (arith, whole, small))
        ∙ ap some whole)
]
  where
    single : (n : ℕ) → n < 10 → parse_digits 0 ((48 + n) ∷ []) ≡ some n
    single n h = ground (arith, h)

pub length-print_from : (f n : ℕ) → 1 ≤ length (print_from (suc f) n)
unfolding print_from
length-print_from f n = elim (Bool-cases (ltb n 10)) [
  | inl small ↦ rw small (omega arith)
  | inr big ↦ rw big (omega (arith, length-append (print_from f (n / 10)) ((48 + n % 10) ∷ [])))
]

-- Every `usize` is read back as it was printed.
pub parse-print : (n : ℕ) → n < usize_limit → parse_usize (print n) ≡ some n
unfolding parse_usize print
parse-print n small =
    no_plus (print_from (n + 1) n) n (print_from-IsDigit (n + 1) n)
      (parse-print_from (n + 1) n (omega arith) small)
      (subst (λ f. 1 ≤ length (print_from f n)) one_more (length-print_from n n))
  where
    one_more : suc n ≡ n + 1
    one_more = omega arith

    no_plus :
        (s : Text) (n : ℕ)
        → All IsDigit s
        → parse_digits 0 s ≡ some n
        → 1 ≤ length s
        → parse_usize s ≡ some n
    no_plus [] n d h l = absurd (omega arith)
    no_plus (c ∷ []) n d h l = h
    no_plus (c ∷ e ∷ s) n (dc, ds) h l =
        let other : (c == b'+') ≡ false = ground (arith, dc) in rw other h
