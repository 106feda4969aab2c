-- ===== src/Schedule/Examples.antt =====
-- Schedules at work: a nightly backup with a period, and one with a cron expression.
use ping.Prelude.{◌+◌, ◌*◌, ◌≡◌, refl, true, none, some}
use ping.Prelude.Int.{pos}
use ping.Schedule.{
  Config, Zones, period, cron, parsed, minute, hour, validate, next_occurrence, next_deadline,
  expected_five_fields,
}
use ping.Schedule.Text.{contains, fields}

abbrev pub zones : Zones
zones = record { known = λ s. true; parse = λ s. parsed; next = λ expr tz t. t + hour }

abbrev daily : Config
daily = record {
  kind = period;
  period = pos (24 * hour);
  cron_expr = "";
  tz = "UTC";
  grace = pos (30 * minute);
}

abbrev at_four : Config
at_four = record {
  kind = cron;
  period = pos 0;
  cron_expr = "0 4 * * *";
  tz = "Europe/Berlin";
  grace = pos (30 * minute);
}

abbrev nowhere : Config
nowhere = record { kind = period; period = pos 0; cron_expr = ""; tz = ""; grace = pos 0 }

machine : Unit {0}
unfolding validate next_occurrence next_deadline contains fields
machine = tt

at_four_valid : validate zones at_four ≡ none
unfolding machine
at_four_valid = refl

four_fields :
    validate zones (record at_four { cron_expr = "0 4 * *" })
    ≡ some (record { field = "cron_expr"; message = expected_five_fields })
unfolding machine
four_fields = refl
