-- ===== src/Lsp/SafeEdit/Matches.antt =====
-- `str::matches(..).count()` and `str::replacen(.., 1)`, by which `safe_edit` of crates/aide-lsp/src/ops.rs
-- finds the one place to change.
use aide_mcp.Base.{
  text_equal, [], ◌∷◌, zero, suc, ℕ, ◌≡◌, refl, arith, if◌then◌else◌, ◌++◌, Text, ◌+◌, ◌-◌, length,
  drop, ap, Bool-cases, inl, inr, true, sym, ◌==◌, ap₂, ==_iff,
}
use aide_mcp.Base.Strings.{starts_with}

-- The matches that do not overlap, from the left; `skip` characters still belong to the last one.
unfoldable pub count_from : Text → ℕ → Text → ℕ
count_from old skip [] = 0
count_from old (suc skip) (c ∷ s) = count_from old skip s
count_from old zero (c ∷ s) =
    let matched = suc (count_from old (length old - 1) s) in
    let later = count_from old 0 s in if starts_with old (c ∷ s) then matched else later

-- The empty text matches between all characters and at both ends.
unfoldable pub count_matches : Text → Text → ℕ
unfolding count_from
count_matches [] s = length s + 1
count_matches (o ∷ old) s = count_from (o ∷ old) 0 s

unfoldable pub replace_first : Text → Text → Text → Text
replace_first [] new s = new ++ s
replace_first (o ∷ old) new [] = []
replace_first (o ∷ old) new (c ∷ s) =
    let later = replace_first (o ∷ old) new s in
    if starts_with (o ∷ old) (c ∷ s) then new ++ drop (length (o ∷ old)) (c ∷ s) else c ∷ later

-- `old` stands in `s` before `post`, behind `pre`.
abbrev pub IsMatch : Text → Text → Text → Text → Type 0
IsMatch old s pre post = s ≡ pre ++ (old ++ post)

starts_with-split : (p s : Text) → starts_with p s ≡ true → s ≡ p ++ drop (length p) s
starts_with-split [] s h = refl
starts_with-split (c ∷ p) [] h = absurd (cc h)
starts_with-split (c ∷ p) (d ∷ s) h = elim (Bool-cases (c == d)) [
  | inl e ↦ ap₂ (λ x r. x ∷ r) (sym ((==_iff c d).0 e)) (starts_with-split p s (rw e at h))
  | inr e ↦ absurd (cc (rw e at h))
]

-- If some match is counted, the old text stands somewhere, and the result has the new text there instead,
-- with all that stands before and behind kept.
pub replace_first-IsMatch :
    (old new s : Text)
    → (n : ℕ) → count_matches old s ≡ suc n
    → (pre : Text) × (post : Text) × IsMatch old s pre post
      × (replace_first old new s ≡ pre ++ (new ++ post))
unfolding count_matches replace_first
replace_first-IsMatch [] new s n h = ([], s, refl, refl)
replace_first-IsMatch (o ∷ old) new [] n h = absurd (omega (arith, h))
replace_first-IsMatch (o ∷ old) new (c ∷ s) n h =
    elim (Bool-cases (starts_with (o ∷ old) (c ∷ s))) [
      | inl e ↦
          ([], drop (length (o ∷ old)) (c ∷ s), starts_with-split (o ∷ old) (c ∷ s) e, rw e refl)
      | inr e ↦
          let (pre, post, p, q) = replace_first-IsMatch (o ∷ old) new s n (rw e at h) in
          (c ∷ pre, post, ap (λ r. c ∷ r) p, rw e (ap (λ r. c ∷ r) q))
    ]
