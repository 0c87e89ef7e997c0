-- ===== src/Base/Lists.antt =====
-- Lists measured and cut by native numbers, filters by a Boolean test, membership by recursion, and
-- texts as lists of code points.
use Prim.Native.Nat.{ℕ, zero, suc, ◌+◌, ◌-◌, ◌≤◌, min}
use Prim.Native.Char.{code}
use Prim.Native.String.{String}
use mathlib.Core.Path.{◌≡◌, refl, ap, ◌∙◌}
use mathlib.Core.Logic.{◌⊎◌, ◌↔◌, inl, inr}
use mathlib.Core.Bool.{Bool, true, false}
use mathlib.Core.List.{List, [], ◌∷◌, ◌++◌}
use mathlib.Core.Option.{Option, none, some}
use native.Mathlib.Omega.{arith}
use aide_mcp.Base.Tests.{if◌then◌else◌, Bool-cases}

-- A text, as its code points.
abbrev pub Text : Type 0
Text = List ℕ

abbrev pub codes : String → Text
codes String.[] = []
codes (String.◌∷◌ c s) = code c ∷ codes s

module _ {ℓ} {A : Type ℓ} where
  abbrev pub length : List A → ℕ
  length [] = 0
  length (x ∷ xs) = suc (length xs)

  abbrev pub take : ℕ → List A → List A
  take zero xs = []
  take (suc n) [] = []
  take (suc n) (x ∷ xs) = x ∷ take n xs

  abbrev pub drop : ℕ → List A → List A
  drop zero xs = xs
  drop (suc n) [] = []
  drop (suc n) (x ∷ xs) = drop n xs

  -- The elements that pass a test, in their order.
  abbrev pub select : (A → Bool) → List A → List A
  select p [] = []
  select p (x ∷ xs) = let rest = select p xs in if p x then x ∷ rest else rest

  abbrev pub any : (A → Bool) → List A → Bool
  any p [] = false
  any p (x ∷ xs) = if p x then true else any p xs

  pub length-append : (xs ys : List A) → length (xs ++ ys) ≡ length xs + length ys
  length-append [] ys = omega arith
  length-append (x ∷ xs) ys = omega (arith, length-append xs ys)

  pub take-append-drop : (n : ℕ) (xs : List A) → take n xs ++ drop n xs ≡ xs
  take-append-drop zero xs = refl
  take-append-drop (suc n) [] = refl
  take-append-drop (suc n) (x ∷ xs) = ap (λ r. x ∷ r) (take-append-drop n xs)

  pub length-take : (n : ℕ) (xs : List A) → length (take n xs) ≡ min n (length xs)
  length-take zero xs = omega arith
  length-take (suc n) [] = omega arith
  length-take (suc n) (x ∷ xs) = omega (arith, length-take n xs)

  pub length-drop : (n : ℕ) (xs : List A) → length (drop n xs) ≡ length xs - n
  length-drop zero xs = omega arith
  length-drop (suc n) [] = omega arith
  length-drop (suc n) (x ∷ xs) = omega (arith, length-drop n xs)

  pub length-select : (p : A → Bool) (xs : List A) → length (select p xs) ≤ length xs
  length-select p [] = omega arith
  length-select p (x ∷ xs) = ground (arith, length-select p xs)

module _ {ℓ κ} {A : Type ℓ} (P : A → Type κ) where
  abbrev pub All : List A → Type κ
  All [] = Unit
  All (x ∷ xs) = P x × All xs

  pub All-append : (xs ys : List A) → All xs → All ys → All (xs ++ ys)
  All-append [] ys hx hy = hy
  All-append (x ∷ xs) ys (px, hx) hy = (px, All-append xs ys hx hy)

  pub All-take : (n : ℕ) (xs : List A) → All xs → All (take n xs)
  All-take zero xs h = tt
  All-take (suc n) [] h = tt
  All-take (suc n) (x ∷ xs) (px, h) = (px, All-take n xs h)

  pub All-drop : (n : ℕ) (xs : List A) → All xs → All (drop n xs)
  All-drop zero xs h = h
  All-drop (suc n) [] h = tt
  All-drop (suc n) (x ∷ xs) (px, h) = All-drop n xs h

-- Membership, with the place kept.
module _ {A : Type 0} (a : A) where
  abbrev pub In : List A → Type 0
  In [] = ⊥
  In (x ∷ xs) = (a ≡ x) ⊎ In xs

  pub In-append_left : (xs ys : List A) → In xs → In (xs ++ ys)
  In-append_left (x ∷ xs) ys (inl e) = inl e
  In-append_left (x ∷ xs) ys (inr h) = inr (In-append_left xs ys h)
  In-append_left [] ys h = absurd h

  pub In-append_right : (xs ys : List A) → In ys → In (xs ++ ys)
  In-append_right [] ys h = h
  In-append_right (x ∷ xs) ys h = inr (In-append_right xs ys h)

  pub In-append : (xs ys : List A) → In (xs ++ ys) → In xs ⊎ In ys
  In-append [] ys h = inr h
  In-append (x ∷ xs) ys (inl e) = inl (inl e)
  In-append (x ∷ xs) ys (inr h) = elim (In-append xs ys h) [ inl l ↦ inl (inr l) | inr r ↦ inr r ]

  pub In-select : (p : A → Bool) (xs : List A) → In (select p xs) → In xs
  In-select p (x ∷ xs) h = elim (Bool-cases (p x)) [
    | inl e ↦ elim (rw e at h) [ inl l ↦ inl l | inr r ↦ inr (In-select p xs r) ]
    | inr e ↦ inr (In-select p xs (rw e at h))
  ]
  In-select p [] h = absurd h

-- What holds of every element holds of a member.
pub All-In {κ} : {A : Type 0} (P : A → Type κ) (a : A) (xs : List A) → All P xs → In a xs → P a
All-In P a (x ∷ xs) (px, h) (inl e) = rw e px
All-In P a (x ∷ xs) (px, h) (inr m) = All-In P a xs h m
All-In P a [] h m = absurd m

module _ {ℓ} {A : Type ℓ} (f : A → Bool) where
  pub select-append : (xs ys : List A) → select f (xs ++ ys) ≡ select f xs ++ select f ys
  select-append [] ys = refl
  select-append (x ∷ xs) ys = ground (arith, select-append xs ys)

  pub select-none : (xs : List A) → All (λ x. f x ≡ false) xs → select f xs ≡ []
  select-none [] h = refl
  select-none (x ∷ xs) (hx, h) = rw hx (select-none xs h)

pub All-weaken {ℓ κ μ} :
    {A : Type ℓ} (P : A → Type κ) (Q : A → Type μ) (xs : List A)
    → ((a : A) → P a → Q a)
    → All P xs
    → All Q xs
All-weaken P Q [] w h = tt
All-weaken P Q (x ∷ xs) w (px, h) = (w x px, All-weaken P Q xs w h)

pub length-take-le {ℓ} : {A : Type ℓ} (n : ℕ) (xs : List A) → length (take n xs) ≤ n
length-take-le n xs = omega (arith, length-take n xs)

pub drop_all {ℓ} : {A : Type ℓ} (n : ℕ) (xs : List A) → length xs ≤ n → drop n xs ≡ []
drop_all zero [] h = refl
drop_all zero (x ∷ xs) h = absurd (omega arith)
drop_all (suc n) [] h = refl
drop_all (suc n) (x ∷ xs) h = drop_all n xs (omega arith)

pub List-cases {ℓ} :
    {A : Type ℓ} (xs : List A) → (xs ≡ []) ⊎ ((x : A) × (r : List A) × (xs ≡ x ∷ r))
List-cases [] = inl refl
List-cases (x ∷ r) = inr (x, r, refl)

abbrev pub get_elem? {ℓ} : {A : Type ℓ} → List A → ℕ → Option A
get_elem? [] i = none
get_elem? (x ∷ xs) zero = some x
get_elem? (x ∷ xs) (suc i) = get_elem? xs i

-- A test on a literal list.
pub All-none {ℓ} :
    {A : Type ℓ} (p : A → Bool) (xs : List A) → any p xs ≡ false → All (λ x. p x ≡ false) xs
All-none p [] h = tt
All-none p (x ∷ xs) h = elim (Bool-cases (p x)) [
  | inl e ↦ absurd (ground (arith, rw e at h))
  | inr e ↦ (e, All-none p xs (rw e at h))
]

module _ {A : Type 0} (p : A → Bool) (a : A) where
  pub In-select_passes : (xs : List A) → In a (select p xs) → p a ≡ true
  In-select_passes [] h = absurd h
  In-select_passes (x ∷ xs) h = elim (Bool-cases (p x)) [
    | inl e ↦ elim (rw e at h) [ inl l ↦ ap p l ∙ e | inr r ↦ In-select_passes xs r ]
    | inr e ↦ In-select_passes xs (rw e at h)
  ]

  pub In-of_select : (xs : List A) → In a xs → p a ≡ true → In a (select p xs)
  In-of_select [] h e = absurd h
  In-of_select (x ∷ xs) (inl l) e = let here : p x ≡ true = rw l at e in rw here (inl l)
  In-of_select (x ∷ xs) (inr r) e = elim (Bool-cases (p x)) [
    | inl t ↦ rw t (inr (In-of_select xs r e))
    | inr t ↦ rw t (In-of_select xs r e)
  ]

  pub In-select_iff : (xs : List A) → In a (select p xs) ↔ (In a xs × (p a ≡ true))
  In-select_iff xs =
      (λ h. (In-select a p xs h, In-select_passes xs h), λ h. In-of_select xs h.0 h.1)

-- A test that fails on all elements.
pub any-none {ℓ} :
    {A : Type ℓ} (p : A → Bool) (xs : List A) → All (λ x. p x ≡ false) xs → any p xs ≡ false
any-none p [] h = refl
any-none p (x ∷ xs) (hx, h) = rw hx (any-none p xs h)
