-- ===== src/Base/Int.antt =====
-- The `int` of the source, over the native numbers: ids, values and times.
use Prim.Native.Nat.{ℕ, suc, ◌+◌, ◌-◌, ◌%◌, ◌≤◌}
use mathlib.Core.Path.{◌≡◌, ap}
use mathlib.Core.Bool.{Bool, true, false}
use mathlib.Core.Logic.{ite}
use native.Mathlib.Omega.{arith}
use native.Mathlib.Decide.{ℕ_discrete}
use rep_crec.Base.Logic.{leb, ltb, if◌then◌else◌}

-- `negsuc n` is -(n + 1).
pub data ℤ : Type 0 where
  pos : ℕ → ℤ
  negsuc : ℕ → ℤ

abbrev pub minus_one : ℤ
minus_one = negsuc 0

abbrev pub pos_part : ℤ → ℕ
pos_part (pos n) = n
pos_part (negsuc n) = 0

abbrev pub neg_part : ℤ → ℕ
neg_part (pos n) = 0
neg_part (negsuc n) = suc n

-- a - b, as an integer.
abbrev pub sub_ℕ : ℕ → ℕ → ℤ
sub_ℕ a b = if leb b a then pos (a - b) else negsuc (b - a - 1)

infixl 65 ◌+ℤ◌
infix 50 ◌≤ℤ◌ ◌<ℤ◌ ◌==ℤ◌
unfoldable pub ◌+ℤ◌ : ℤ → ℤ → ℤ
a +ℤ b = sub_ℕ (pos_part a + pos_part b) (neg_part a + neg_part b)

-- `a % k`: the remainder has the sign of the number.
abbrev pub rem_ℤ : ℤ → ℕ → ℤ
rem_ℤ (pos n) k = pos (n % k)
rem_ℤ (negsuc n) k = sub_ℕ 0 (suc n % k)

abbrev pub ◌≤ℤ◌ : ℤ → ℤ → Type 0
a ≤ℤ b = pos_part a + neg_part b ≤ pos_part b + neg_part a

abbrev pub ◌<ℤ◌ : ℤ → ℤ → Type 0
a <ℤ b = suc (pos_part a + neg_part b) ≤ pos_part b + neg_part a

abbrev pub ltb_ℤ : ℤ → ℤ → Bool
ltb_ℤ a b = ltb (pos_part a + neg_part b) (pos_part b + neg_part a)

pub pos_injective : (a b : ℕ) → pos a ≡ pos b → a ≡ b
pos_injective a b e = cc

unfoldable pub ℤ_discrete : Discrete ℤ
unfolding ℕ_discrete
ℤ_discrete (pos a) (pos b) = elim (ℕ_discrete a b) [
  | yes p ↦ yes (ap pos p)
  | no q ↦ no (λ e. q (pos_injective a b e))
]
ℤ_discrete (pos a) (negsuc b) = no (λ e. cc)
ℤ_discrete (negsuc a) (pos b) = no (λ e. cc)
ℤ_discrete (negsuc a) (negsuc b) = elim (ℕ_discrete a b) [
  | yes p ↦ yes (ap negsuc p)
  | no q ↦ no (λ e. q (cc))
]

abbrev pub ◌==ℤ◌ : ℤ → ℤ → Bool
a ==ℤ b = ite (ℤ_discrete a b) true false

pub ==ℤ_self : (a : ℤ) → (a ==ℤ a) ≡ true
==ℤ_self a = ground arith
