-- ===== src/Prelude/Int.antt =====
-- Signed integers over the native numbers: the source's int32 columns and time.Duration values.
use Prim.Native.Nat.{ℕ, suc, ◌+◌, ◌*◌, ◌-◌, ◌≤◌}
use mathlib.Core.Bool.{Bool}
use ping.Prelude.Tests.{ltb, ◌==◌, if◌then◌else◌}

-- `negsuc n` is -(n + 1).
pub data ℤ : Type 0 where
  pos : ℕ → ℤ
  negsuc : ℕ → ℤ

abbrev pub pos_part : ℤ → ℕ
pos_part (pos n) = n
pos_part (negsuc n) = 0

abbrev pub neg_part : ℤ → ℕ
neg_part (pos n) = 0
neg_part (negsuc n) = suc n

abbrev pub ltb_ℤ : ℤ → ℤ → Bool
ltb_ℤ a b = ltb (pos_part a + neg_part b) (pos_part b + neg_part a)

infix 50 ◌≤ℤ◌
abbrev pub ◌≤ℤ◌ : ℤ → ℤ → Type 0
a ≤ℤ b = pos_part a + neg_part b ≤ pos_part b + neg_part a

-- A product with a number.
abbrev pub scale : ℤ → ℕ → ℤ
scale (pos n) k = pos (n * k)
scale (negsuc n) k = if k == 0 then pos 0 else negsuc (suc n * k - 1)

abbrev pub int32_max : ℕ
int32_max = 2147483647

-- The addition of one to an int32: Go wraps round.
abbrev pub suc_int32 : ℤ → ℤ
suc_int32 (pos n) = if n == int32_max then negsuc int32_max else pos (n + 1)
suc_int32 (negsuc n) = if n == 0 then pos 0 else negsuc (n - 1)
