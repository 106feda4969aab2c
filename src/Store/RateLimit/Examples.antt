-- ===== src/Store/RateLimit/Examples.antt =====
-- Five requests a minute: a server that keeps a counter for each key.
use text.Mathlib.Text.{◌==◌ as str_eq}
use text.Mathlib.TextEquality.{eq_iff}
use ping.Prelude.{
  suc, ◌+◌, ◌*◌, ◌≡◌, refl, String, true, Option, none, some, List, [], ◌∷◌, if◌then◌else◌, arith,
  map_option,
}
use ping.Prelude.Int.{ℤ, pos, negsuc}
use ping.Schedule.{Instant, second}
use ping.Store.RateLimit.{Redis, allowance, refusal}
use ping.Store.RateLimit.Window.{
  Counter, left, live, count_of, expiry_of, IsRedis, answers, verdicts, answers_lem,
}

abbrev pub Keys : Type 0
Keys = String → Option Counter

abbrev put : String → Counter → Keys → Keys
put k c s j = if str_eq j k then some c else s j

abbrev with_expiry : Instant → Counter → Counter
with_expiry t c = record c { expires_at = some t }

abbrev put_some : String → Option Counter → Keys → Keys
put_some k none s = s
put_some k (some c) s = put k c s

abbrev left_at : Instant → Option Counter → ℤ
left_at now none = negsuc 1
left_at now (some c) = elim c.expires_at [ none ↦ negsuc 0 | some t ↦ pos (left t now) ]

abbrev next_counter : Option Counter → Counter
next_counter o = record { count = suc (count_of o); expires_at = expiry_of o }

abbrev pub keys : Redis
keys = record {
  State = Keys;
  incr =
      λ k now s. (some (suc (count_of (live now (s k)))), put k (next_counter (live now (s k))) s);
  expire = λ k w now s. (true, put_some k (map_option (with_expiry (now + w)) (s k)) s);
  ttl = λ k now s. (some (left_at now (live now (s k))), s);
}

same_key : (k : String) → str_eq k k ≡ true
same_key k = (eq_iff k k).1 refl

keys-IsRedis : IsRedis keys
keys-IsRedis = record {
  holds = λ k s. s k;
  incr_lem = λ k now s. refl;
  holds-incr = λ k now s. rw (same_key k) refl;
  expire_lem = λ k w now s. refl;
  holds-expire = λ k w now s c h. rw h (rw (same_key k) refl);
  ttl_lem = λ k now s c t h e l. rw (h, e) (ground (arith, l));
  holds-ttl = λ k now s. refl;
}

abbrev pub nothing : Keys
nothing k = none

abbrev burst : List Instant
burst = 0 ∷ second ∷ 2 * second ∷ 70 * second ∷ []

two_a_minute :
    verdicts 2 (60 * second) none burst
    ≡ allowance ∷ allowance ∷ refusal (58 * second) ∷ allowance ∷ []
unfolding verdicts
two_a_minute = refl

answers_lem_example :
    answers keys "rate:login:203.0.113.5" 2 (60 * second) nothing burst
    ≡ verdicts 2 (60 * second) none burst
unfolding keys-IsRedis
answers_lem_example =
    answers_lem keys keys-IsRedis "rate:login:203.0.113.5" 2 (60 * second) (omega arith) nothing
      burst refl
