-- ===== src/Base/Sort.antt =====
-- A stable sort (`slice::sort_by`): insertion from the right, so equal elements keep their order.
use Prim.Native.Nat.{ℕ, zero, suc}
use mathlib.Core.Path.{◌≡◌, refl}
use mathlib.Core.Bool.{Bool, true, false}
use mathlib.Core.List.{List, [], ◌∷◌}
use mathlib.Core.Logic.{inl, inr}
use native.Mathlib.Omega.{arith}
use aide_mcp.Base.Tests.{if◌then◌else◌, Bool-cases}
use aide_mcp.Base.Lists.{length, take, drop, select, All, All-In, In}

-- `after x y`: `x` belongs strictly behind `y`.
module _ {ℓ} {A : Type ℓ} (after : A → A → Bool) where
  abbrev pub place : A → List A → List A
  place x [] = x ∷ []
  place x (y ∷ ys) = if after x y then y ∷ place x ys else x ∷ y ∷ ys

  abbrev pub sort_by : List A → List A
  sort_by [] = []
  sort_by (x ∷ xs) = place x (sort_by xs)

  pub length-place : (x : A) (ys : List A) → length (place x ys) ≡ length (x ∷ ys)
  length-place x [] = refl
  length-place x (y ∷ ys) = ground (arith, length-place x ys)

  pub length-sort_by : (xs : List A) → length (sort_by xs) ≡ length xs
  length-sort_by [] = refl
  length-sort_by (x ∷ xs) = omega (arith, length-place x (sort_by xs), length-sort_by xs)

  -- The sort keeps how many elements pass a test.
  length-select-place :
      (f : A → Bool) (x : A) (ys : List A)
      → length (select f (place x ys)) ≡ length (select f (x ∷ ys))
  length-select-place f x [] = refl
  length-select-place f x (y ∷ ys) = ground (arith, length-select-place f x ys)

  pub length-select-sort_by :
      (f : A → Bool) (xs : List A) → length (select f (sort_by xs)) ≡ length (select f xs)
  length-select-sort_by f [] = refl
  length-select-sort_by f (x ∷ xs) =
      ground (arith, length-select-place f x (sort_by xs), length-select-sort_by f xs)

  -- No element belongs strictly behind a later one.
  abbrev pub IsSorted : List A → Type ℓ
  IsSorted [] = Unit
  IsSorted (x ∷ xs) = All (λ y. after x y ≡ false) xs × IsSorted xs

  module _ {κ} (P : A → Type κ) where
    pub All-place : (x : A) (ys : List A) → P x → All P ys → All P (place x ys)
    All-place x [] px h = (px, tt)
    All-place x (y ∷ ys) px (py, h) = elim (Bool-cases (after x y)) [
      | inl t ↦ rw t (py, All-place x ys px h)
      | inr t ↦ rw t (px, (py, h))
    ]

    pub All-sort_by : (xs : List A) → All P xs → All P (sort_by xs)
    All-sort_by [] h = tt
    All-sort_by (x ∷ xs) (px, h) = All-place x (sort_by xs) px (All-sort_by xs h)

  -- What a total preorder gives: asymmetry and transitivity of the negation.
  pub record IsOrder : Type ℓ where
    pub asym : (x y : A) → after x y ≡ true → after y x ≡ false
    pub chain : (x y z : A) → after x y ≡ false → after y z ≡ false → after x z ≡ false

  module _ (o : IsOrder) where
    below :
        (x y : A) (ys : List A)
        → after x y ≡ false
        → All (λ z. after y z ≡ false) ys
        → All (λ z. after x z ≡ false) ys
    below x y [] h k = tt
    below x y (z ∷ ys) h (kz, k) = (o.chain x y z h kz, below x y ys h k)

    place-IsSorted : (x : A) (ys : List A) → IsSorted ys → IsSorted (place x ys)
    place-IsSorted x [] h = (tt, tt)
    place-IsSorted x (y ∷ ys) (hy, h) = elim (Bool-cases (after x y)) [
      | inl t ↦
          rw t (All-place (λ z. after y z ≡ false) x ys (o.asym x y t) hy, place-IsSorted x ys h)
      | inr t ↦ rw t ((t, below x y ys t hy), (hy, h))
    ]

    pub sort_by-IsSorted : (xs : List A) → IsSorted (sort_by xs)
    sort_by-IsSorted [] = tt
    sort_by-IsSorted (x ∷ xs) = place-IsSorted x (sort_by xs) (sort_by-IsSorted xs)

pub In-drop : {A : Type 0} (n : ℕ) (b : A) (xs : List A) → In b (drop n xs) → In b xs
In-drop zero b xs h = h
In-drop (suc n) b [] h = h
In-drop (suc n) b (x ∷ xs) h = inr (In-drop n b xs h)

-- The sort has the members of its input.
module _ {A : Type 0} (after : A → A → Bool) (a : A) where
  place_head : (x : A) (ys : List A) → a ≡ x → In a (place after x ys)
  place_head x [] e = inl e
  place_head x (y ∷ ys) e = elim (Bool-cases (after x y)) [
    | inl t ↦ rw t (inr (place_head x ys e))
    | inr t ↦ rw t (inl e)
  ]

  place_rest : (x : A) (ys : List A) → In a ys → In a (place after x ys)
  place_rest x [] h = absurd h
  place_rest x (y ∷ ys) h = elim (Bool-cases (after x y)) [
    | inl t ↦ rw t (elim h [ inl l ↦ inl l | inr r ↦ inr (place_rest x ys r) ])
    | inr t ↦ rw t (inr h)
  ]

  pub In-sort_by : (xs : List A) → In a xs → In a (sort_by after xs)
  In-sort_by [] h = absurd h
  In-sort_by (x ∷ xs) (inl e) = place_head x (sort_by after xs) e
  In-sort_by (x ∷ xs) (inr h) = place_rest x (sort_by after xs) (In-sort_by xs h)

  In-place : (x : A) (ys : List A) → In a (place after x ys) → In a (x ∷ ys)
  In-place x [] h = h
  In-place x (y ∷ ys) h = elim (Bool-cases (after x y)) [
    | inl t ↦ elim (rw t at h) [
      | inl l ↦ inr (inl l)
      | inr r ↦ elim (In-place x ys r) [ inl l ↦ inl l | inr q ↦ inr (inr q) ]
    ]
    | inr t ↦ rw t at h
  ]

  pub In-of_sort_by : (xs : List A) → In a (sort_by after xs) → In a xs
  In-of_sort_by [] h = h
  In-of_sort_by (x ∷ xs) h = elim (In-place x (sort_by after xs) h) [
    | inl l ↦ inl l
    | inr r ↦ inr (In-of_sort_by xs r)
  ]

  -- In a sorted list nothing of a prefix belongs strictly behind a later element.
  pub sorted_split :
      (n : ℕ) (b : A) (xs : List A)
      → IsSorted after xs
      → In a (take n xs)
      → In b (drop n xs)
      → after a b ≡ false
  sorted_split zero b xs s h k = absurd h
  sorted_split (suc n) b [] s h k = absurd h
  sorted_split (suc n) b (x ∷ xs) (hx, s) (inl e) k =
      rw e (All-In (λ y. after x y ≡ false) b xs hx (In-drop n b xs k))
  sorted_split (suc n) b (x ∷ xs) (hx, s) (inr h) k = sorted_split n b xs s h k
