-- ===== src/Prelude/Int.antt =====
-- Python integers that may be negative, under the library's names. Sums and differences go through
-- the two parts of an integer, which are numbers that `omega` reads.
use langgraph_runtime_inmem.Prelude.Tests.{leb, if◌then◌else◌}
use Prim.Native.Nat.{ℕ, suc, ◌+◌, ◌-◌}
use mathlib.Core.Path.{◌≡◌}
use native.Mathlib.Omega.{arith}

-- `negsuc n` is -(n + 1).
pub data ℤ : Type 0 where
  pos : ℕ → ℤ
  negsuc : ℕ → ℤ

-- `pos_part z` is also `max(0, z)`.
abbrev pub pos_part : ℤ → ℕ
pos_part (pos n) = n
pos_part (negsuc n) = 0

abbrev pub neg_part : ℤ → ℕ
neg_part (pos n) = 0
neg_part (negsuc n) = suc n

-- a - b, as an integer.
abbrev pub sub_ℕ : ℕ → ℕ → ℤ
sub_ℕ a b = if leb b a then pos (a - b) else negsuc (b - a - 1)

infixl 65 ◌+ℤ◌ ◌-ℤ◌
unfoldable pub ◌+ℤ◌ : ℤ → ℤ → ℤ
a +ℤ b = sub_ℕ (pos_part a + pos_part b) (neg_part a + neg_part b)

unfoldable pub ◌-ℤ◌ : ℤ → ℤ → ℤ
a -ℤ b = sub_ℕ (pos_part a + neg_part b) (neg_part a + pos_part b)

-- Moving a total by the difference of two numbers.
pub shift_total : (s s' a b : ℕ) → s' + b ≡ s + a → pos s +ℤ (pos a -ℤ pos b) ≡ pos s'
unfolding ◌+ℤ◌ ◌-ℤ◌
shift_total s s' a b h = ground arith

pub drop_total : (s s' b : ℕ) → s' + b ≡ s → pos s -ℤ pos b ≡ pos s'
unfolding ◌-ℤ◌
drop_total s s' b h = ground arith

-- Taking away what is there.
pub take_away : (a b r : ℕ) → b + r ≡ a → pos_part (pos a +ℤ (pos 0 -ℤ pos r)) ≡ b
unfolding ◌+ℤ◌ ◌-ℤ◌
take_away a b r h = ground arith

-- Replacing what is there.
pub replace_part :
    (a b old new : ℕ) → b + old ≡ a + new → pos_part (pos a +ℤ (pos new -ℤ pos old)) ≡ b
unfolding ◌+ℤ◌ ◌-ℤ◌
replace_part a b old new h = ground arith

pub same_part : (a : ℕ) → pos_part (pos a +ℤ pos 0) ≡ a
unfolding ◌+ℤ◌
same_part a = ground arith

pub add_part : (a b : ℕ) → pos_part (pos a +ℤ pos b) ≡ a + b
unfolding ◌+ℤ◌
add_part a b = ground arith
