-- ===== src/Store/Pages/Examples.antt =====
-- The timeline of a backup in pages of one event, with cursors in unary.
use ping.Prelude.{
  ℕ, zero, suc, ◌≡◌, refl, ap, String, false, Option, none, some, [], ◌∷◌, select, length, ◌<◌,
  arith,
}
use ping.Schedule.Text.{is_empty}
use ping.Db.{Db, Event, EventType, text, empty}
use ping.Db.Samples.{quiet}
use ping.Store.Promise.{IsOrdered}
use ping.Store.Pages.{is_wanted, is_users, list_events_by_monitor, list_events_by_user}
use ping.Store.Pages.Follow.{feed, follow, follow_all, follow_user}

abbrev unary : ℕ → String
unary zero = String.◌∷◌ "x" String.[]
unary (suc n) = String.◌∷◌ "x" (unary n)

abbrev size : String → ℕ
size String.[] = 0
size (String.◌∷◌ c s) = suc (size s)

abbrev number : String → Option ℕ
number String.[] = none
number (String.◌∷◌ c s) = some (size s)

size-unary : (n : ℕ) → size (unary n) ≡ suc n
size-unary zero = refl
size-unary (suc n) = ap suc (size-unary n)

roundtrip : (n : ℕ) → number (unary n) ≡ some n
roundtrip zero = refl
roundtrip (suc n) = ap some (size-unary n)

named : (n : ℕ) → is_empty (unary n) ≡ false
named zero = refl
named (suc n) = refl

abbrev event : ℕ → EventType → Event
event i t = record {
  id = i;
  monitor_id = 1;
  type = t;
  message = text "";
  meta = empty;
  created_at = i;
}

abbrev busy : Db
busy = record quiet {
  events = event 4 EventType.down ∷ event 9 EventType.up ∷ [];
  next_event_id = 10;
}

few_events : length (feed (is_wanted 1 none) busy) < 3
unfolding select
few_events = omega arith

few_of_user : length (feed (is_users 7 none none busy) busy) < 3
unfolding select
few_of_user = omega arith

grows : IsOrdered busy.events
grows = ((omega arith, tt), (tt, tt))

follow_all_example :
    follow 3 (λ cursor. list_events_by_monitor unary number 1 "" cursor 1 busy) ""
    ≡ feed (is_wanted 1 none) busy
follow_all_example = follow_all unary number roundtrip named 3 0 1 "" busy grows few_events

follow_user_example :
    follow 3 (λ cursor. list_events_by_user unary number 7 none "" cursor 1 busy) ""
    ≡ feed (is_users 7 none none busy) busy
follow_user_example = follow_user unary number roundtrip named 3 0 7 none "" busy grows few_of_user
