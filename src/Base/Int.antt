-- ===== src/Base/Int.antt =====
-- Signed machine integers in range, as integers over the native numbers, with their order.
use Prim.Native.Nat.{ℕ}
use mathlib.Core.Path.{◌≡◌}
use mathlib.Core.Bool.{Bool, true, false}
use native.Mathlib.Omega.{arith}
use aide_mcp.Base.Tests.{leb}

pub data ℤ : Type 0 where
  pos negsuc : ℕ → ℤ

abbrev pub leb_int : ℤ → ℤ → Bool
leb_int (pos a) (pos b) = leb a b
leb_int (pos a) (negsuc b) = false
leb_int (negsuc a) (pos b) = true
leb_int (negsuc a) (negsuc b) = leb b a

pub leb_int_trans : (a b c : ℤ) → leb_int a b ≡ true → leb_int b c ≡ true → leb_int a c ≡ true
leb_int_trans (pos a) (pos b) (pos c) h k = ground (arith, h, k)
leb_int_trans (negsuc a) (pos b) (pos c) h k = ground (arith, h, k)
leb_int_trans (negsuc a) (negsuc b) (pos c) h k = ground (arith, h, k)
leb_int_trans (negsuc a) (negsuc b) (negsuc c) h k = ground (arith, h, k)
leb_int_trans (pos a) (pos b) (negsuc c) h k = k
leb_int_trans (pos a) (negsuc b) c h k = absurd (cc h)
leb_int_trans (negsuc a) (pos b) (negsuc c) h k = absurd (cc k)

pub leb_int-total : (a b : ℤ) → leb_int a b ≡ false → leb_int b a ≡ true
leb_int-total (pos a) (pos b) h = ground (arith, h)
leb_int-total (pos a) (negsuc b) h = ground (arith, h)
leb_int-total (negsuc a) (pos b) h = absurd (cc h)
leb_int-total (negsuc a) (negsuc b) h = ground (arith, h)

pub leb_int_refl : (a : ℤ) → leb_int a a ≡ true
leb_int_refl (pos a) = ground arith
leb_int_refl (negsuc a) = ground arith
