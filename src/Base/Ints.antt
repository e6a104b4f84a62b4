-- ===== src/Base/Ints.antt =====
-- The integers over the native numbers, with the order of C on an `int`.
use Prim.Native.Nat.{ℕ, zero, suc}
use mathlib.Core.Path.{◌≡◌, refl}
use mathlib.Core.Bool.{Bool, true, false}
use native.Mathlib.Omega.{arith}
use tp_ssoo_2c.Base.Tests.{ltb}

-- `negsuc n` is -(n + 1).
pub data ℤ : Type 0 where
  pos negsuc : ℕ → ℤ

unfoldable pub predℤ : ℤ → ℤ
predℤ (pos zero) = negsuc 0
predℤ (pos (suc n)) = pos n
predℤ (negsuc n) = negsuc (suc n)

unfoldable pub ltbℤ : ℤ → ℤ → Bool
ltbℤ (pos m) (pos n) = ltb m n
ltbℤ (pos m) (negsuc n) = false
ltbℤ (negsuc m) (pos n) = true
ltbℤ (negsuc m) (negsuc n) = ltb n m

infix 4 ◌≤ℤ◌
unfoldable pub ◌≤ℤ◌ : ℤ → ℤ → Type 0
unfolding ltbℤ
a ≤ℤ b = ltbℤ b a ≡ false

pub ltbℤ_irrefl : (a : ℤ) → ltbℤ a a ≡ false
unfolding ltbℤ
ltbℤ_irrefl (pos n) = ground arith
ltbℤ_irrefl (negsuc n) = ground arith

pub ≤ℤ_refl : (a : ℤ) → a ≤ℤ a
unfolding ◌≤ℤ◌
≤ℤ_refl a = ltbℤ_irrefl a

pub ≤ℤ_of_ltbℤ : (a b : ℤ) → ltbℤ a b ≡ true → a ≤ℤ b
unfolding ◌≤ℤ◌ ltbℤ
≤ℤ_of_ltbℤ (pos m) (pos n) h = ground arith
≤ℤ_of_ltbℤ (pos m) (negsuc n) h = ground arith
≤ℤ_of_ltbℤ (negsuc m) (pos n) h = refl
≤ℤ_of_ltbℤ (negsuc m) (negsuc n) h = ground arith

pub ≤ℤ_of_ltbℤ-false : (a b : ℤ) → ltbℤ b a ≡ false → a ≤ℤ b
unfolding ◌≤ℤ◌
≤ℤ_of_ltbℤ-false a b h = h

pub ≤ℤ_trans : (a b c : ℤ) → a ≤ℤ b → b ≤ℤ c → a ≤ℤ c
unfolding ◌≤ℤ◌ ltbℤ
≤ℤ_trans (pos a) (pos b) (pos c) h k = ground arith
≤ℤ_trans (pos a) (pos b) (negsuc c) h k = ground arith
≤ℤ_trans (pos a) (negsuc b) c h k = ground arith
≤ℤ_trans (negsuc a) b (pos c) h k = refl
≤ℤ_trans (negsuc a) (pos b) (negsuc c) h k = ground arith
≤ℤ_trans (negsuc a) (negsuc b) (negsuc c) h k = ground arith
