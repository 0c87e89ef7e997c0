-- ===== src/Lsp/Edits/Order.antt =====
-- The order in which edits are applied does not depend on the order in which they are given, as long as
-- their starts differ.
use aide_mcp.Base.{
  Permutation, text_equal, [], ◌∷◌, true, List, ◌≡◌, arith, ◌⊎◌, All, refl, ◌++◌, inl, inr, sym, ap,
  ◌∙◌, All-weaken, subst,
}
use mathlib.Core.List.Permᴰ.{nil, cons, swap, trans}
use aide_mcp.Base.Sort.{place, sort_by, All-sort_by}
use aide_mcp.Lsp.Edits.{TextEdit, starts_before}
use aide_mcp.Lsp.Position.{IsBefore}

abbrev pub IsApart : TextEdit → TextEdit → Type 0
IsApart a b = (starts_before a b ≡ true) ⊎ (starts_before b a ≡ true)

abbrev pub Apart : List TextEdit → Type 0
Apart [] = Unit
Apart (x ∷ xs) = All (IsApart x) xs × Apart xs

place-swap :
    (x y : TextEdit) (zs : List TextEdit)
    → starts_before x y ≡ true
    → place starts_before x (place starts_before y zs)
      ≡ place starts_before y (place starts_before x zs)
place-swap x y [] h = ground (arith, h)
place-swap x y (z ∷ zs) h = ground (arith, h, place-swap x y zs h)

module _ (P : TextEdit → Type 0) where
  All-Perm : {xs ys : List TextEdit} → Permutation xs ys → All P xs → All P ys
  All-Perm nil h = tt
  All-Perm (cons e d) (p, h) = (rw e at p, All-Perm d h)
  All-Perm (swap e f) (p, (q, h)) = (rw f at q, (rw e at p, h))
  All-Perm (trans d f) h = All-Perm f (All-Perm d h)

IsApart-sym : (a b : TextEdit) → IsApart a b → IsApart b a
IsApart-sym a b (inl h) = inr h
IsApart-sym a b (inr h) = inl h

Apart-Perm : {xs ys : List TextEdit} → Permutation xs ys → Apart xs → Apart ys
Apart-Perm nil h = tt
Apart-Perm (cons {a} e d) (p, h) = (rw e at (All-Perm (IsApart a) d p), Apart-Perm d h)
Apart-Perm (swap {a} {b} {a' = y} {b' = x} {l = l} e f) ((p, ps), (qs, h)) = (
  (IsApart-sym x y (rw (e, f) at p), subst (λ z. All (IsApart z) l) f qs),
  (subst (λ z. All (IsApart z) l) e ps, h),
)
Apart-Perm (trans d f) h = Apart-Perm f (Apart-Perm d h)

-- Edits that are apart are sorted into one list, in whatever order they come.
pub sort-Perm :
    {xs ys : List TextEdit}
    → Permutation xs ys
    → Apart xs
    → sort_by starts_before xs ≡ sort_by starts_before ys
sort-Perm nil h = refl
sort-Perm (cons {b = b} e d) (p, h) = rw e (ap (λ l. place starts_before b l) (sort-Perm d h))
sort-Perm (swap {a' = y} {b' = x} {l = l} e f) ((p, ps), (qs, h)) =
    rw (e, f)
      (elim (rw (e, f) at p) [
        | inl lt ↦ place-swap x y (sort_by starts_before l) lt
        | inr lt ↦ sym (place-swap y x (sort_by starts_before l) lt)
      ])
sort-Perm (trans d f) h = sort-Perm d h ∙ sort-Perm f (Apart-Perm d h)

-- What starts before all others is applied last.
place_last :
    (x : TextEdit) (ys : List TextEdit)
    → All (λ y. starts_before x y ≡ true) ys
    → place starts_before x ys ≡ ys ++ (x ∷ [])
place_last x [] h = refl
place_last x (y ∷ ys) (b, h) = rw b (ap (λ l. y ∷ l) (place_last x ys h))

pub sort_first :
    (x : TextEdit) (xs : List TextEdit)
    → All (λ y. starts_before x y ≡ true) xs
    → sort_by starts_before (x ∷ xs) ≡ sort_by starts_before xs ++ (x ∷ [])
sort_first x xs h = place_last x _ (All-sort_by starts_before _ xs h)

starts_before-IsBefore :
    (x y : TextEdit) → IsBefore x.range.start y.range.start → starts_before x y ≡ true
starts_before-IsBefore x y h = ground (arith, h)

-- Each edit starts before all that follow.
abbrev pub Ascending : List TextEdit → Type 0
Ascending [] = Unit
Ascending (x ∷ xs) = All (λ y. IsBefore x.range.start y.range.start) xs × Ascending xs

pub first_starts :
    (x : TextEdit) (xs : List TextEdit)
    → All (λ y. IsBefore x.range.start y.range.start) xs
    → All (λ y. starts_before x y ≡ true) xs
first_starts x xs h = All-weaken _ _ xs (starts_before-IsBefore x) h

pub Ascending-Apart : (xs : List TextEdit) → Ascending xs → Apart xs
Ascending-Apart [] h = tt
Ascending-Apart (x ∷ xs) (hx, h) =
    (All-weaken _ _ xs (λ y b. inl b) (first_starts x xs hx), Ascending-Apart xs h)
