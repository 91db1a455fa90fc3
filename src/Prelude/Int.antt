-- ===== src/Prelude/Int.antt =====
-- Signed integers over the native numbers (the library's stand on the unary ones).
use Prim.Native.Nat.{ℕ, suc, ◌+◌, ◌-◌}
use mathlib.Core.Path.{◌≡◌}
use native.Mathlib.Omega.{arith}
use mathlib.Core.Bool.{Bool}
use armstrong_bot.Prelude.Tests.{ltb, leb, if◌then◌else◌}

-- `negsuc n` is -(n + 1).
pub data ℤ : Type 0 where
  pos : ℕ → ℤ
  negsuc : ℕ → ℤ

abbrev pub pos_part : ℤ → ℕ
pos_part (pos n) = n
pos_part (negsuc n) = 0

abbrev pub neg_part : ℤ → ℕ
neg_part (pos n) = 0
neg_part (negsuc n) = suc n

abbrev pub ltb_ℤ : ℤ → ℤ → Bool
ltb_ℤ a b = ltb (pos_part a + neg_part b) (pos_part b + neg_part a)

-- a - b, as an integer.
abbrev pub sub_ℕ : ℕ → ℕ → ℤ
sub_ℕ a b = if leb b a then pos (a - b) else negsuc (b - a - 1)

infixl 65 ◌+ℤ◌
unfoldable pub ◌+ℤ◌ : ℤ → ℤ → ℤ
a +ℤ b = sub_ℕ (pos_part a + pos_part b) (neg_part a + neg_part b)

-- The integer -n.
abbrev pub minus : ℕ → ℤ
minus n = sub_ℕ 0 n

pub pos-add : (a b : ℕ) → pos a +ℤ pos b ≡ pos (a + b)
unfolding ◌+ℤ◌
pos-add a b = ground arith

pub pos-add-minus : (a b c : ℕ) → c + b ≡ a → pos a +ℤ minus b ≡ pos c
unfolding ◌+ℤ◌
pos-add-minus a b c h = ground arith

pub zero-add_ℤ : (b : ℤ) → pos 0 +ℤ b ≡ b
unfolding ◌+ℤ◌
zero-add_ℤ (pos n) = ground arith
zero-add_ℤ (negsuc n) = ground arith
