-- ===== src/Base/Map.antt =====
-- A hash map as an association list over keys with a Boolean equality. The order of the list stands
-- for the unspecified order of iteration: the theorems range over all lists.
use mathlib.Core.Path.{◌≡◌, refl, ap}
use mathlib.Core.List.{List, [], ◌∷◌}
use mathlib.Core.Logic.{inl, inr}
use mathlib.Core.Option.{Option, none, some}
use mathlib.Core.Option
use Prim.Native.Nat.{◌+◌, ◌≤◌, ◌<◌, suc}
use native.Mathlib.Omega.{arith}
use aide_mcp.Base.Tests.{if◌then◌else◌, Bool-cases, Option-cases}
use aide_mcp.Base.Lists.{length}
use aide_mcp.Base.Equality.{Equal}

abbrev pub Map {ℓ κ} : Type ℓ → Type κ → Type (ℓ ⊔ κ)
Map K V = List (K × V)

module _ {ℓ κ} {K : Type ℓ} {V : Type κ} ⦃e : Equal K⦄ where
  abbrev pub get : K → Map K V → Option V
  get k [] = none
  get k ((j, v) ∷ m) = if e.same j k then some v else get k m

  -- A new key stands last, a known one keeps its place.
  abbrev pub insert : K → V → Map K V → Map K V
  insert k v [] = (k, v) ∷ []
  insert k v ((j, w) ∷ m) = if e.same j k then (j, v) ∷ m else (j, w) ∷ insert k v m

  abbrev pub remove : K → Map K V → Map K V
  remove k [] = []
  remove k ((j, w) ∷ m) = let rest = remove k m in if e.same j k then rest else (j, w) ∷ rest

  -- `if let Some(v) = m.get_mut(k) { f(v) }`
  abbrev pub modify : K → (V → V) → Map K V → Map K V
  modify k f [] = []
  modify k f ((j, w) ∷ m) = if e.same j k then (j, f w) ∷ m else (j, w) ∷ modify k f m

  -- No key stands twice.
  abbrev pub Distinct : Map K V → Type κ
  Distinct [] = Unit
  Distinct ((j, w) ∷ m) = (get j m ≡ none) × Distinct m

module _ {ℓ κ} {K : Type ℓ} {V : Type κ} ⦃e : Equal K⦄ where
  pub get-insert :
      (k j : K) (v : V) (m : Map K V)
      → get j (insert k v m) ≡ (if e.same k j then some v else get j m)
  get-insert k j v [] = refl
  get-insert k j v ((i, w) ∷ m) =
      ground
        (arith, e.same_iff k j, e.same_iff i k, e.same_iff i j, e.same_iff k k, get-insert k j v m)

  pub get-remove :
      (k j : K) (m : Map K V) → get j (remove k m) ≡ (if e.same k j then none else get j m)
  get-remove k j [] = ground arith
  get-remove k j ((i, w) ∷ m) =
      ground (arith, e.same_iff k j, e.same_iff i k, e.same_iff i j, get-remove k j m)

  pub get-modify :
      (k j : K) (f : V → V) (m : Map K V)
      → get j (modify k f m) ≡ (if e.same k j then Option.map f (get j m) else get j m)
  get-modify k j f [] = ground arith
  get-modify k j f ((i, w) ∷ m) =
      ground (arith, e.same_iff k j, e.same_iff i k, e.same_iff i j, get-modify k j f m)

  pub length-modify : (k : K) (f : V → V) (m : Map K V) → length (modify k f m) ≡ length m
  length-modify k f [] = refl
  length-modify k f ((i, w) ∷ m) = ground (arith, length-modify k f m)

  pub length-remove : (k : K) (m : Map K V) → length (remove k m) ≤ length m
  length-remove k [] = omega arith
  length-remove k ((i, w) ∷ m) = ground (arith, length-remove k m)

  pub length-insert : (k : K) (v : V) (m : Map K V) → length (insert k v m) ≤ length m + 1
  length-insert k v [] = omega arith
  length-insert k v ((i, w) ∷ m) = ground (arith, length-insert k v m)

  pub length-insert_known :
      (k : K) (v : V) (m : Map K V) (old : V)
      → get k m ≡ some old
      → length (insert k v m) ≡ length m
  length-insert_known k v [] old h = absurd (cc h)
  length-insert_known k v ((i, w) ∷ m) old h = elim (Bool-cases (e.same i k)) [
    | inl s ↦ rw s refl
    | inr s ↦ rw s (ap suc (length-insert_known k v m old (ground (arith, h, s))))
  ]

  pub length-remove_known :
      (k : K) (m : Map K V) (old : V) → get k m ≡ some old → length (remove k m) < length m
  length-remove_known k [] old h = absurd (cc h)
  length-remove_known k ((i, w) ∷ m) old h = elim (Bool-cases (e.same i k)) [
    | inl s ↦ rw s (omega (arith, length-remove k m))
    | inr s ↦ rw s (omega (arith, length-remove_known k m old (ground (arith, h, s))))
  ]

  pub Distinct-insert : (k : K) (v : V) (m : Map K V) → Distinct m → Distinct (insert k v m)
  Distinct-insert k v [] h = (refl, tt)
  Distinct-insert k v ((i, w) ∷ m) h = elim (Bool-cases (e.same i k)) [
    | inl t ↦ rw t h
    | inr t ↦ rw t (
      ground (arith, h.0, get-insert k i v m, e.same_iff i k, e.same_iff k i),
      Distinct-insert k v m h.1,
    )
  ]

  pub Distinct-remove : (k : K) (m : Map K V) → Distinct m → Distinct (remove k m)
  Distinct-remove k [] h = tt
  Distinct-remove k ((i, w) ∷ m) h = elim (Bool-cases (e.same i k)) [
    | inl t ↦ rw t (Distinct-remove k m h.1)
    | inr t ↦ rw t (ground (arith, h.0, get-remove k i m), Distinct-remove k m h.1)
  ]

  pub Distinct-modify : (k : K) (f : V → V) (m : Map K V) → Distinct m → Distinct (modify k f m)
  Distinct-modify k f [] h = tt
  Distinct-modify k f ((i, w) ∷ m) h = elim (Bool-cases (e.same i k)) [
    | inl t ↦ rw t h
    | inr t ↦ rw t (ground (arith, h.0, get-modify k i f m), Distinct-modify k f m h.1)
  ]

  -- Where a value of a modified map comes from.
  pub modify_source :
      (k j : K) (f : V → V) (m : Map K V) (q : V)
      → get j (modify k f m) ≡ some q
      → (r : V) × (get j m ≡ some r) × (q ≡ (if e.same k j then f r else r))
  modify_source k j f m q h = elim (Option-cases (get j m)) [
    | inl none_there ↦ absurd (ground (arith, get-modify k j f m, h, none_there))
    | inr (r, there) ↦ (r, there, ground (arith, get-modify k j f m, h, there))
  ]

  pub remove_absent : (k : K) (m : Map K V) → get k m ≡ none → remove k m ≡ m
  remove_absent k [] h = refl
  remove_absent k ((j, w) ∷ m) h = ground (arith, remove_absent k m, h)
