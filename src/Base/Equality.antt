-- ===== src/Base/Equality.antt =====
-- Boolean equality with its law, as an interface, and its instances for numbers, texts and pairs.
use Prim.Native.Nat.{ℕ}
use mathlib.Core.Path.{◌≡◌, refl}
use mathlib.Core.Logic.{◌↔◌}
use mathlib.Core.Bool.{Bool, true, false}
use mathlib.Core.List.{[], ◌∷◌}
use native.Mathlib.Omega.{arith}
use aide_mcp.Base.Tests.{◌==◌ as nat_eq, ==_iff, if◌then◌else◌}
use aide_mcp.Base.Lists.{Text}

pub record Equal {ℓ} (A : Type ℓ) : Type ℓ where
  pub same : A → A → Bool
  pub same_iff : (a b : A) → (same a b ≡ true) ↔ (a ≡ b)

instance abbrev pub nat_equal : Equal ℕ
nat_equal = record { same = nat_eq; same_iff = ==_iff }

abbrev pub text_same : Text → Text → Bool
text_same [] [] = true
text_same (a ∷ s) (b ∷ t) = if nat_eq a b then text_same s t else false
text_same _ _ = false

pub text_same_iff : (s t : Text) → (text_same s t ≡ true) ↔ (s ≡ t)
text_same_iff [] [] = ground arith
text_same_iff (a ∷ s) (b ∷ t) = ground (arith, text_same_iff s t)
text_same_iff [] (b ∷ t) = ground arith
text_same_iff (a ∷ s) [] = ground arith

instance abbrev pub text_equal : Equal Text
text_equal = record { same = text_same; same_iff = text_same_iff }

-- A derived equality on pairs of texts.
abbrev pub pair_same : Text × Text → Text × Text → Bool
pair_same p q = if text_same p.0 q.0 then text_same p.1 q.1 else false

pub pair_same_iff : (p q : Text × Text) → (pair_same p q ≡ true) ↔ (p ≡ q)
pair_same_iff (a, b) (c, d) = ground (arith, text_same_iff a c, text_same_iff b d)

instance abbrev pub pair_equal : Equal (Text × Text)
pair_equal = record { same = pair_same; same_iff = pair_same_iff }

module _ {ℓ} {A : Type ℓ} ⦃e : Equal A⦄ where
  pub same_refl : (a : A) → e.same a a ≡ true
  same_refl a = (e.same_iff a a).1 refl
