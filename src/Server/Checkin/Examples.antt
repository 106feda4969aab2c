-- ===== src/Server/Checkin/Examples.antt =====
-- Two pings of the same address: one is recorded, and one has a body that is cut within a letter.
use ping.Prelude.{
  ℕ, ◌*◌, ◌≡◌, refl, inl, String, false, ◌||◌, Option, none, some, List, [], ◌∷◌, map, ltb,
  if◌then◌else◌, arith,
}
use ping.Schedule.{hour}
use ping.Schedule.Examples.{zones}
use ping.Db.{success, fail}
use ping.Db.Samples.{quiet}
use ping.Store.{calm}
use ping.Store.RateLimit.Examples.{keys, nothing}
use ping.Server.Checkin.{Ping, ingest, exit_code, max_int64}
use ping.Server.Checkin.Codes.{written, value_from, is_all_zero, exit_code_lem}
use ping.Server.Checkin.Laws.{lost_ping}

abbrev no_addr : String → Option String
no_addr s = none

-- Only ASCII is a text here.
abbrev ascii : List ℕ → Option String
ascii [] = some ""
ascii (b ∷ bs) = if ltb b 128 then some "ascii" else none

abbrev fine : Ping
fine = record { slug = "abc"; ip = "203.0.113.5"; user_agent = "curl"; is_head = false; body = [] }

abbrev cut : Ping
cut = record fine { body = 195 ∷ [] }

lost_ping_example :
    ((ingest zones no_addr ascii keys cut success (101 * hour) nothing (calm quiet)).2.db ≡ quiet)
    × ((ingest zones no_addr ascii keys cut success (101 * hour) nothing (calm quiet)).0
        ≡ (ingest zones no_addr ascii keys fine fail (101 * hour) nothing (calm quiet)).0)
lost_ping_example =
    lost_ping zones no_addr ascii keys (101 * hour) nothing cut fine success fail (calm quiet)
      (calm quiet) refl refl (inl refl)

exit_code_lem_example : exit_code (map written (0 ∷ 7 ∷ [])) ≡ (
    if is_all_zero (0 ∷ 7 ∷ []) || ltb max_int64 (value_from 0 (0 ∷ 7 ∷ [])) then success else fail)
exit_code_lem_example = exit_code_lem 0 (7 ∷ []) (omega arith, (omega arith, tt))
