-- ===== src/Store/Prober/Confirm.antt =====
-- The confirmation threshold: when a history of probes takes a monitor down.
use ping.Prelude.{
  ℕ, suc, ◌+◌, ◌≤◌, ◌≡◌, Bool, true, false, some, List, [], ◌∷◌, leb, if◌then◌else◌, length, arith,
}
use ping.Prelude.Int.{ℤ, pos, int32_max}
use ping.Db.{State}
use ping.Store.Prober.{ProbeOutcome, next_probe_state}

-- One probe of a monitor that has this state and streak; `o` gives the threshold.
abbrev pub observe : ProbeOutcome → Bool → State × ℤ → State × ℤ
observe o b (s, k) =
    next_probe_state (record o { succeeded = b; prior_state = some s; prior_fail_streak = k })

-- The state and the streak after a history of probes, newest first, from up with no failure.
pub history : ProbeOutcome → List Bool → State × ℤ
history o [] = (State.up, pos 0)
history o (b ∷ bs) = observe o b (history o bs)

-- The failures since the last success.
abbrev pub trailing : List Bool → ℕ
trailing [] = 0
trailing (true ∷ bs) = 0
trailing (false ∷ bs) = suc (trailing bs)

trailing-le : (bs : List Bool) → trailing bs ≤ length bs
trailing-le [] = omega arith
trailing-le (true ∷ bs) = omega arith
trailing-le (false ∷ bs) = omega (arith, trailing-le bs)

observe_fail :
    (o : ProbeOutcome) (k n : ℕ)
    → o.fail_threshold ≡ pos (suc k)
    → n + 1 ≤ int32_max
    → observe o false (if leb (suc k) n then State.down else State.up, pos n)
      ≡ (if leb (suc k) (suc n) then State.down else State.up, pos (suc n))
unfolding next_probe_state
observe_fail o k n e h = ground arith

observe_success :
    (o : ProbeOutcome) (k : ℕ) (s : State × ℤ)
    → observe o true s ≡ (if leb (suc k) 0 then State.down else State.up, pos 0)
unfolding next_probe_state
observe_success o k (s, n) = ground arith

-- For a threshold of 1 or more: whatever the history, as long as it has fewer than 2³¹ probes, the
-- monitor is down exactly if the failures since the last success have reached the threshold, and
-- its streak is their number. So no blip below the threshold takes it down, and one success
-- brings it up.
pub history_lem :
    (o : ProbeOutcome) (k : ℕ) (bs : List Bool)
    → o.fail_threshold ≡ pos (suc k)
    → length bs ≤ int32_max
    → history o bs ≡ (if leb (suc k) (trailing bs) then State.down else State.up, pos (trailing bs))
unfolding history
history_lem o k [] e h = ground arith
history_lem o k (true ∷ bs) e h = observe_success o k (history o bs)
history_lem o k (false ∷ bs) e h =
    rw (history_lem o k bs e (omega arith))
      (observe_fail o k (trailing bs) e (omega (arith, trailing-le bs)))
