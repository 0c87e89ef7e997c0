-- ===== src/Lang/TextDiag/Parts.antt =====
-- What the parsing of a diagnostic finds in the parts of a line: the file, the numbers, the message.
use aide_mcp.Base.{
  text_equal, [], ◌∷◌, some, true, false, Text, length, ◌==◌, ◌++◌, All, ◌≡◌, ◌<◌, arith, refl, ℕ,
  codes, ap, append_assoc, drop, length-append, suc, inl, inr, Bool, ◌≤◌, ◌+◌, sym, ◌∙◌, ◌^◌,
  List-cases, ltb, lt→ltb, subst,
}
use aide_mcp.Base.Strings.{starts_with, trim, cons_unless, trim_start, is_whitespace, trim_end}
use aide_mcp.Lang.TextDiag.{
  find, colon, trim_here, span_digits, cons_first, space, number_of, parse_u32, take_number,
}
use aide_mcp.Proto.Framing.Decimal.{IsDigit, print_from-IsDigit, parse-print, length-print_from}
use aide_mcp.Proto.Framing.{is_digit, print, print_from}

-- A pattern that ends in a colon does not start before the colon.
starts_with-before :
    (ext u v : Text)
    → All (λ c. (c == colon) ≡ false) u
    → length ext < length u
    → starts_with (ext ++ colon ∷ []) (u ++ v) ≡ false
starts_with-before [] (c ∷ u) v (hc, hu) l = ground (arith, hc)
starts_with-before (e ∷ ext) (c ∷ u) v (hc, hu) l =
    ground (arith, starts_with-before ext u v hu (omega (arith, l)))
starts_with-before [] [] v hu l = absurd (omega (arith, l))
starts_with-before (e ∷ ext) [] v hu l = absurd (omega (arith, l))

starts_with-append : (p s : Text) → starts_with p (p ++ s) ≡ true
starts_with-append [] s = refl
starts_with-append (c ∷ p) s = ground (arith, starts_with-append p s)

find-here : (pattern s : Text) → starts_with pattern s ≡ true → find pattern s ≡ some ([], s)
unfolding find
find-here pattern [] h = rw h refl
find-here pattern (c ∷ s) h = rw h refl

find-later :
    (pattern s before at : Text) (c : ℕ)
    → starts_with pattern (c ∷ s) ≡ false
    → find pattern s ≡ some (before, at)
    → find pattern (c ∷ s) ≡ some (c ∷ before, at)
unfolding find
find-later pattern s before at c h e = rw (h, find) (rw e refl)

pub find-ext :
    (stem ext rest : Text)
    → All (λ c. (c == colon) ≡ false) (stem ++ ext)
    → find (ext ++ colon ∷ []) (stem ++ (ext ++ colon ∷ rest)) ≡ some (stem, ext ++ colon ∷ rest)
find-ext [] ext rest h =
    find-here (ext ++ colon ∷ []) (ext ++ colon ∷ rest)
      (rw (append_assoc ext (colon ∷ []) rest) at (starts_with-append (ext ++ colon ∷ []) rest))
find-ext (c ∷ stem) ext rest (hc, h) =
    find-later (ext ++ colon ∷ []) (stem ++ (ext ++ colon ∷ rest)) stem (ext ++ colon ∷ rest) c
      (rw (append_assoc (c ∷ stem) ext (colon ∷ rest)) at (
        starts_with-before ext ((c ∷ stem) ++ ext) (colon ∷ rest) (hc, h)
          (omega (arith, length-append stem ext))))
      (find-ext stem ext rest h)

pub drop-append : (xs ys : Text) → drop (length xs) (xs ++ ys) ≡ ys
drop-append [] ys = refl
drop-append (x ∷ xs) ys = drop-append xs ys

-- The name does not begin with the text `./`.
abbrev pub IsPlain : Text → Type 0
IsPlain file = starts_with (codes "./") file ≡ false

pub trim_here-plain : (file : Text) → IsPlain file → trim_here file ≡ file
unfolding trim_here
trim_here-plain [] h = refl
trim_here-plain (c ∷ []) h = refl
trim_here-plain (c ∷ d ∷ s) h = ground (arith, h)

-- A printed number before a character that is no digit is taken off.
span_digits-append :
    (ds : Text) (c : ℕ) (rest : Text)
    → All IsDigit ds
    → is_digit c ≡ false
    → span_digits (ds ++ c ∷ rest) ≡ (ds, c ∷ rest)
unfolding span_digits
span_digits-append [] c rest h n = rw n refl
span_digits-append (d ∷ ds) c rest (hd, h) n =
    rw hd (ap (cons_first d) (span_digits-append ds c rest h n))

number_of-some :
    (ds rest : Text) (n : ℕ)
    → 1 ≤ length ds
    → parse_u32 ds ≡ some n
    → number_of (ds, rest) ≡ some (n, rest)
unfolding number_of
number_of-some [] rest n l h = absurd (omega (arith, l))
number_of-some (d ∷ ds) rest n l h = rw h refl

parse_u32-print : (n : ℕ) → n < 2 ^ 32 → parse_u32 (print n) ≡ some n
unfolding parse_u32
parse_u32-print n small =
    let fits : ltb n (2 ^ 32) ≡ true = lt→ltb n (2 ^ 32) small in
    rw (parse-print n (omega (arith, small)), parse_u32) (rw fits refl)

pub take_number-print :
    (n c : ℕ) (rest : Text)
    → n < 2 ^ 32
    → is_digit c ≡ false
    → take_number (print n ++ c ∷ rest) ≡ some (n, c ∷ rest)
unfolding take_number print
take_number-print n c rest small other =
    let one_more : suc n ≡ n + 1 = omega arith in
    ap number_of (span_digits-append (print n) c rest (print_from-IsDigit (n + 1) n) other)
    ∙ number_of-some (print n) (c ∷ rest) n
        (subst (λ f. 1 ≤ length (print_from f n)) one_more (length-print_from n n))
        (parse_u32-print n small)

-- A message that is not empty and has no blanks around it.
abbrev pub IsTrimmed : Text → Type 0
IsTrimmed message = (trim message ≡ message) × (1 ≤ length message)

cons_unless-some : (b : Bool) (c d : ℕ) (s t : Text) → t ≡ d ∷ s → cons_unless b c t ≡ c ∷ t
cons_unless-some b c d s t e = rw e refl

pub trim-space : (message : Text) → IsTrimmed message → trim (space ∷ message) ≡ message
trim-space message (same, l) = elim (List-cases (trim_end is_whitespace message)) [
  | inl none_left ↦
      absurd (omega (arith, l, ap length (sym same ∙ ap (trim_start is_whitespace) none_left)))
  | inr (d, s, e) ↦ ap (trim_start is_whitespace) (cons_unless-some true space d s _ e) ∙ same
]
