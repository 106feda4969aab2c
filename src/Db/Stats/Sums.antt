-- ===== src/Db/Stats/Sums.antt =====
-- Sums over the instants of a day.
use ping.Prelude.{ℕ, zero, suc, ◌+◌, ◌<◌, ◌≡◌, refl, ap₂, Bool, true, false, arith}
use ping.Schedule.{Instant}

abbrev pub one : Bool → ℕ
one true = 1
one false = 0

-- The sum over the `n` instants from `lo`, and how many of them pass a test.
unfoldable pub sum_over : (Instant → ℕ) → Instant → ℕ → ℕ
sum_over h lo zero = 0
sum_over h lo (suc n) = sum_over h lo n + h (lo + n)

abbrev pub ticks : (Instant → Bool) → Instant → ℕ → ℕ
ticks p = sum_over (λ t. one (p t))

pub sum_over-cong :
    (f g : Instant → ℕ) (lo n : ℕ)
    → ((t : Instant) → t < lo + n → f t ≡ g t)
    → sum_over f lo n ≡ sum_over g lo n
unfolding sum_over
sum_over-cong f g lo zero h = refl
sum_over-cong f g lo (suc n) h =
    ap₂ (λ a b. a + b) (sum_over-cong f g lo n (λ t l. h t (omega arith)))
      (h (lo + n) (omega arith))

pub sum_over-add :
    (f g : Instant → ℕ) (lo n : ℕ)
    → sum_over (λ t. f t + g t) lo n ≡ sum_over f lo n + sum_over g lo n
unfolding sum_over
sum_over-add f g lo zero = refl
sum_over-add f g lo (suc n) = omega (arith, sum_over-add f g lo n)

pub sum_over-zero : (lo n : ℕ) → sum_over (λ t. 0) lo n ≡ 0
unfolding sum_over
sum_over-zero lo zero = refl
sum_over-zero lo (suc n) = omega (arith, sum_over-zero lo n)
