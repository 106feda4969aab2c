-- ===== src/Worker/Prober/Laws.antt =====
-- When a probe succeeds.
use Prim.Native.String
use ping.Prelude.{
  ℕ, ◌≤◌, ◌<◌, ◌≡◌, refl, ap, ap₂, ◌∙◌, sym, ◌⊎◌, inl, inr, ◌↔◌, String, Bool, true, false, not,
  ◌&&◌, ◌||◌, none, some, List, [], ◌∷◌, ◌++◌, take, ◌==◌, ==_iff, Bool-cases, arith, if◌then◌else◌,
}
use ping.Prelude.Int.{pos, suc_int32}
use ping.Schedule.{Instant}
use ping.Db.{Monitor, State}
use ping.Store.Prober.{ProbeOutcome, next_probe_state}
use ping.Worker.Prober.{
  HttpConfig, Exchange, invalid, failed, answered, ProbeResult, is_success_status, is_prefix,
  contains, is_nil, same_bool, misses_keyword, judged, outcome_of, run_probe, max_body_bytes,
}

-- The word stands somewhere in the text.
abbrev pub Occurs : List ℕ → List ℕ → Type 0
Occurs word body = (before : List ℕ) × (after : List ℕ) × (body ≡ before ++ word ++ after)

prefix_split :
    (word body : List ℕ) → is_prefix word body ≡ true → (after : List ℕ) × (body ≡ word ++ after)
unfolding is_prefix
prefix_split [] body h = (body, refl)
prefix_split (x ∷ word) [] h = absurd (ground arith)
prefix_split (x ∷ word) (y ∷ body) h =
    let first : (x == y) ≡ true = ground arith in
    let others : is_prefix word body ≡ true = ground arith in
    let (after, e) = prefix_split word body others in
    (after, ap₂ ◌∷◌ (sym ((==_iff x y).0 first)) e)

prefix_append : (word after : List ℕ) → is_prefix word (word ++ after) ≡ true
unfolding is_prefix
prefix_append [] after = refl
prefix_append (x ∷ word) after = rw ((==_iff x x).1 refl) (prefix_append word after)

contains_split : (word body : List ℕ) → contains word body ≡ true → Occurs word body
unfolding contains
contains_split word [] h = let (after, e) = prefix_split word [] h in ([], after, e)
contains_split word (y ∷ body) h = elim (Bool-cases (is_prefix word (y ∷ body))) [
  | inl p ↦ let (after, e) = prefix_split word (y ∷ body) p in ([], after, e)
  | inr p ↦
      let (before, after, e) = contains_split word body (rw p at h) in
      (y ∷ before, after, ap (λ ys. y ∷ ys) e)
]

or_true : (b : Bool) → (b || true) ≡ true
or_true true = refl
or_true false = refl

contains_append : (before word after : List ℕ) → contains word (before ++ word ++ after) ≡ true
unfolding contains
contains_append [] [] [] = refl
contains_append [] [] (a ∷ after) = refl
contains_append [] (x ∷ word) after = rw (prefix_append (x ∷ word) after) refl
contains_append (y ∷ before) word after = rw (contains_append before word after) (or_true _)

-- The search for a keyword finds it exactly if the word stands somewhere in the text.
pub contains_iff : (word body : List ℕ) → (contains word body ≡ true) ↔ Occurs word body
contains_iff word body = (
  contains_split word body,
  λ (before, after, e). ap (contains word) e ∙ contains_append before word after,
)

-- A response that a probe is content with: a status of 200 to 399, a body that was read, and in
-- its first 64 KiB the keyword, or no keyword if the assertion is negated; without a keyword any.
abbrev pub IsHealthy : HttpConfig → Exchange → Type 0
IsHealthy cfg (answered status expiry (some body) d) =
    (200 ≤ status)
    × (status < 400)
    × ((cfg.keyword ≡ [])
        ⊎ (contains cfg.keyword (take max_body_bytes body) ≡ not cfg.keyword_negate))
IsHealthy cfg _ = ⊥

keyword_iff :
    (k : List ℕ) (found negate : Bool)
    → ((not (is_nil k) && same_bool found negate) ≡ false) ↔ ((k ≡ []) ⊎ (found ≡ not negate))
keyword_iff [] found negate = (λ h. inl refl, λ h. refl)
keyword_iff (x ∷ k) true true =
    (λ h. absurd (ground arith), λ h. elim h [ inl e ↦ absurd (ground arith) | inr e ↦ e ])
keyword_iff (x ∷ k) true false = (λ h. inr refl, λ h. refl)
keyword_iff (x ∷ k) false true = (λ h. inr refl, λ h. refl)
keyword_iff (x ∷ k) false false =
    (λ h. absurd (ground arith), λ h. elim h [ inl e ↦ absurd (ground arith) | inr e ↦ sym e ])

misses_iff :
    (cfg : HttpConfig) (body : List ℕ)
    → (misses_keyword cfg body ≡ false)
      ↔ ((cfg.keyword ≡ []) ⊎ (contains cfg.keyword body ≡ not cfg.keyword_negate))
unfolding misses_keyword
misses_iff cfg body = keyword_iff cfg.keyword (contains cfg.keyword body) cfg.keyword_negate

-- The verdict on a body, by the tests on the status and the keyword.
verdict :
    (s m : Bool) (x y z : ProbeResult)
    → x.succeeded ≡ false
    → y.succeeded ≡ false
    → z.succeeded ≡ true
    → ((if not s then x else if m then y else z).succeeded ≡ true) ↔ ((s ≡ true) × (m ≡ false))
verdict true true x y z p q r = ground (arith, p, q, r)
verdict true false x y z p q r = ground (arith, p, q, r)
verdict false m x y z p q r = ground (arith, p, q, r)

status_iff : (code : ℕ) → (is_success_status code ≡ true) ↔ ((200 ≤ code) × (code < 400))
unfolding is_success_status
status_iff code = ground arith

-- A probe succeeds exactly with a response that it is content with.
pub run_probe_iff :
    (show : ℕ → String) (cfg : HttpConfig) (x : Exchange)
    → ((run_probe show cfg x).succeeded ≡ true) ↔ IsHealthy cfg x
unfolding run_probe
run_probe_iff show cfg invalid = (λ h. absurd (ground arith), λ h. absurd h)
run_probe_iff show cfg (failed e d) = (λ h. absurd (ground arith), λ h. absurd h)
run_probe_iff show cfg (answered status expiry none d) = (λ h. absurd (ground arith), λ h. absurd h)
run_probe_iff show cfg (answered status expiry (some body) d) =
    let v =
      verdict (is_success_status status) (misses_keyword cfg (take max_body_bytes body))
        (judged status expiry d false (String.◌++◌ "unexpected status " (show status)))
        (judged status expiry d false "keyword assertion failed") (judged status expiry d true "")
        refl refl refl in
    let s = status_iff status in
    let k = misses_iff cfg (take max_body_bytes body) in
    (
      λ h. let (a, b) = v.0 h in let (low, high) = s.0 a in (low, high, k.0 b),
      λ (low, high, w). v.1 (s.1 (low, high), k.1 w),
    )

after_success :
    (o : ProbeOutcome) (b : Bool)
    → o.succeeded ≡ b
    → (b ≡ true → next_probe_state o ≡ (State.up, pos 0))
      × (b ≡ false → (next_probe_state o).1 ≡ suc_int32 o.prior_fail_streak)
unfolding next_probe_state
after_success o true e = (λ h. rw e refl, λ h. absurd (ground arith))
after_success o false e = (λ h. absurd (ground arith), λ h. ground (arith, e))

-- The outcome that is recorded of a response that the probe is content with leaves the monitor up
-- with no failures, and that of any other exchange counts one failure more.
pub outcome_lem :
    (show : ℕ → String) (cfg : HttpConfig) (x : Exchange) (m : Monitor) (now : Instant)
    → let o = outcome_of m (run_probe show cfg x) now in
      (IsHealthy cfg x → next_probe_state o ≡ (State.up, pos 0))
      × (¬ IsHealthy cfg x → (next_probe_state o).1 ≡ suc_int32 m.fail_streak)
unfolding outcome_of
outcome_lem show cfg x m now =
    let o = outcome_of m (run_probe show cfg x) now in
    let ok = run_probe_iff show cfg x in
    let (up, count) = after_success o (run_probe show cfg x).succeeded refl in
    (
      λ h. up (ok.1 h),
      λ h. count (elim (Bool-cases (run_probe show cfg x).succeeded) [
        | inl e ↦ absurd (h (ok.0 e))
        | inr e ↦ e
      ]),
    )
