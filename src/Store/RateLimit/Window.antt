-- ===== src/Store/RateLimit/Window.antt =====
-- The limiter as a fixed window: what it promises without Redis, and that it keeps the promise.
use mathlib.Core.Path.{subst}
use ping.Prelude.{
  ℕ, suc, ◌+◌, ◌-◌, ◌*◌, ◌/◌, ◌<◌, ◌≡◌, refl, sym, ap, ap₂, ◌∙◌, inl, inr, String, true, false,
  Option, none, some, List, [], ◌∷◌, map_option, ltb, ◌==◌, if◌then◌else◌, Bool-cases, arith,
}
use ping.Prelude.Int.{pos}
use ping.Schedule.{Instant, second}
use ping.Store.RateLimit.{
  Redis, Allowance, allowance, or_window, refusal, judge, after_expire, after_incr, allow,
}

-- What a key holds: a count, and when it expires, if it does.
pub record Counter : Type 0 where
  pub count : ℕ
  pub expires_at : Option Instant

-- What is left of it at an instant.
abbrev pub live : Instant → Option Counter → Option Counter
live now none = none
live now (some c) = elim c.expires_at [
  | none ↦ some c
  | some t ↦ if ltb now t then some c else none
]

abbrev pub count_of : Option Counter → ℕ
count_of none = 0
count_of (some c) = c.count

abbrev pub expiry_of : Option Counter → Option Instant
expiry_of none = none
expiry_of (some c) = c.expires_at

-- The time to an instant in whole seconds, as TTL rounds it.
abbrev pub left : Instant → Instant → ℕ
left t now = (t - now + second / 2) / second * second

-- What Redis documents of the commands, where none fails. `holds` is what the server keeps.
pub record IsRedis (redis : Redis) : Type 0 where
  pub holds : String → redis.State → Option Counter
  pub incr_lem :
      (k : String) (now : Instant) (s : redis.State)
      → (redis.incr k now s).0 ≡ some (suc (count_of (live now (holds k s))))
  pub holds-incr :
      (k : String) (now : Instant) (s : redis.State)
      → holds k (redis.incr k now s).1
        ≡ some (record {
          count = suc (count_of (live now (holds k s)));
          expires_at = expiry_of (live now (holds k s));
        })
  pub expire_lem :
      (k : String) (w : ℕ) (now : Instant) (s : redis.State) → (redis.expire k w now s).0 ≡ true
  pub holds-expire :
      (k : String) (w : ℕ) (now : Instant) (s : redis.State) (c : Counter)
      → holds k s ≡ some c
      → holds k (redis.expire k w now s).1 ≡ some (record c { expires_at = some (now + w) })
  pub ttl_lem :
      (k : String) (now : Instant) (s : redis.State) (c : Counter) (t : Instant)
      → holds k s ≡ some c
      → c.expires_at ≡ some t
      → now < t
      → (redis.ttl k now s).0 ≡ some (pos (left t now))
  pub holds-ttl :
      (k : String) (now : Instant) (s : redis.State) → holds k (redis.ttl k now s).1 ≡ holds k s

-- The abstract limiter: the window that is open, and how many requests it has seen.
pub record Window : Type 0 where
  pub start : Instant
  pub seen : ℕ

module _ (limit window : ℕ) where
  -- A request in an open window is counted in it, and one outside opens the next.
  abbrev pub entered : Option Window → Instant → Window
  entered none now = record { start = now; seen = 1 }
  entered (some w) now =
      if ltb now (w.start + window)
      then record w { seen = suc w.seen }
      else record { start = now; seen = 1 }

  -- The first requests of a window are allowed, and the others are told when it closes.
  abbrev pub verdict : Window → Instant → Allowance
  verdict w now = if ltb limit w.seen then refusal (left (w.start + window) now) else allowance

  unfoldable pub verdicts : Option Window → List Instant → List Allowance
  verdicts w [] = []
  verdicts w (t ∷ ts) = verdict (entered w t) t ∷ verdicts (some (entered w t)) ts

-- The answers of the code to requests of one key at these instants.
module _ (redis : Redis) (key : String) (limit window : ℕ) where
  unfoldable pub answers : redis.State → List Instant → List Allowance
  unfolding allow
  answers s [] = []
  answers s (t ∷ ts) = let r = allow redis key limit window t true s in r.0 ∷ answers r.1 ts

-- The counter that stands for a window.
abbrev pub counter_of : ℕ → Window → Counter
counter_of window w = record { count = w.seen; expires_at = some (w.start + window) }

module _ (redis : Redis) (laws : IsRedis redis) (key : String) (limit window : ℕ)
    (long : 0 < window) where
  abbrev Holds : redis.State → Option Window → Type 0
  Holds s o = laws.holds key s ≡ map_option (counter_of window) o

  abbrev Answered : Allowance × redis.State → Instant → Window → Type 0
  Answered r now w = (r.0 ≡ verdict limit window w now) × Holds r.1 (some w)

  -- The last test answers as the window says.
  judged :
      (now : Instant) (s : redis.State) (w : Window)
      → Holds s (some w)
      → now < w.start + window
      → Answered (judge redis key limit window now w.seen s) now w
  judged now s w h l = elim (Bool-cases (ltb limit w.seen)) [
    | inl e ↦ (
      rw e (
          ap (λ o. refusal (or_window window o))
            (laws.ttl_lem key now s (counter_of window w) (w.start + window) h refl l)),
      rw e (laws.holds-ttl key now s ∙ h),
    )
    | inr e ↦ (rw e refl, rw e h)
  ]

  -- The first request of a window sets the time to live.
  first :
      (now : Instant) (s : redis.State) (o : Option Instant)
      → laws.holds key s ≡ some (record { count = 1; expires_at = o })
      → Answered
          (after_incr redis key limit window now (some 1, s))
          now
          (record { start = now; seen = 1 })
  first now s o h =
      let s₁ = (redis.expire key window now s).1 in
      subst
        (λ x.
          Answered (after_expire redis key limit window now 1 x) now
            (record { start = now; seen = 1 }))
        (sym (ap (λ b. (b, s₁)) (laws.expire_lem key window now s)))
        (judged now s₁ (record { start = now; seen = 1 }) (laws.holds-expire key window now s _ h)
          (omega (arith, long)))

  -- A later one leaves it.
  later :
      (now : Instant) (s : redis.State) (w : Window)
      → (w.seen == 1) ≡ false
      → Holds s (some w)
      → now < w.start + window
      → Answered (after_incr redis key limit window now (some w.seen, s)) now w
  later now s w e h l = rw e (judged now s w h l)

  counted :
      (now : Instant) (s : redis.State) (n : ℕ) (w : Window)
      → (redis.incr key now s).0 ≡ some n
      → Answered (after_incr redis key limit window now (some n, (redis.incr key now s).1)) now w
      → Answered (allow redis key limit window now true s) now w
  unfolding allow
  counted now s n w e h =
      subst (λ x. Answered (after_incr redis key limit window now x) now w)
        (sym (ap (λ o. (o, (redis.incr key now s).1)) e)) h

  afresh :
      (now : Instant) (s : redis.State)
      → live now (laws.holds key s) ≡ none
      → Answered (allow redis key limit window now true s) now (record { start = now; seen = 1 })
  afresh now s h =
      counted now s 1 (record { start = now; seen = 1 })
        (laws.incr_lem key now s ∙ ap (λ c. some (suc (count_of c))) h)
        (first now _ none (
          laws.holds-incr key now s
          ∙ ap (λ c. some (record { count = suc (count_of c); expires_at = expiry_of c })) h))

  -- A window that is open has seen a request.
  abbrev IsOpened : Option Window → Type 0
  IsOpened none = Unit
  IsOpened (some w) = 0 < w.seen

  within :
      (now : Instant) (s : redis.State) (w : Window) (n : ℕ)
      → w.seen ≡ suc n
      → Holds s (some w)
      → ltb now (w.start + window) ≡ true
      → Answered (allow redis key limit window now true s) now (record w { seen = suc w.seen })
  within now s w n e h l =
      let alive : live now (laws.holds key s) ≡ some (counter_of window w) = rw (h, l) refl in
      counted now s (suc w.seen) (record w { seen = suc w.seen })
        (laws.incr_lem key now s ∙ ap (λ c. some (suc (count_of c))) alive)
        (later now _ (record w { seen = suc w.seen }) (ground (arith, e))
          (laws.holds-incr key now s
            ∙ ap (λ c. some (record { count = suc (count_of c); expires_at = expiry_of c })) alive)
          (ground (arith, l)))

  stepped :
      (now : Instant) (s : redis.State) (o : Option Window)
      → IsOpened o
      → Holds s o
      → Answered (allow redis key limit window now true s) now (entered limit window o now)
  stepped now s none p h = afresh now s (rw h refl)
  stepped now s (some w) p h = elim (Bool-cases (ltb now (w.start + window))) [
    | inl e ↦ rw e (within now s w (w.seen - 1) (omega arith) h e)
    | inr e ↦ rw e (afresh now s (rw (h, e) refl))
  ]

  entered-IsOpened : (o : Option Window) (now : Instant) → 0 < (entered limit window o now).seen
  entered-IsOpened none now = omega arith
  entered-IsOpened (some w) now = ground arith

  runs :
      (s : redis.State) (o : Option Window) (ts : List Instant)
      → IsOpened o
      → Holds s o
      → answers redis key limit window s ts ≡ verdicts limit window o ts
  unfolding answers verdicts
  runs s o [] p h = refl
  runs s o (t ∷ ts) p h =
      let (e, h') = stepped t s o p h in
      ap₂ (λ a rest. a ∷ rest) e
        (runs (allow redis key limit window t true s).1 (some (entered limit window o t)) ts
          (entered-IsOpened o t) h')

  -- Where Redis does as it documents and no command fails, the code answers the requests of a key
  -- that Redis does not hold yet as the abstract limiter does: in each window the first `limit`
  -- requests are allowed, and the others are told in seconds when the window closes.
  pub answers_lem :
      (s : redis.State) (ts : List Instant)
      → laws.holds key s ≡ none
      → answers redis key limit window s ts ≡ verdicts limit window none ts
  answers_lem s ts h = runs s none ts tt h
