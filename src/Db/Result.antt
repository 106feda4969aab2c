-- ===== src/Db/Result.antt =====
-- The results of statements and of the store's operations. The texts that `fmt.Errorf` puts
-- round an error are left out: errors.Is and the HTTP status look through them. `unfinished` is the
-- model's own: the fuel of a loop is used up.
use ping.Schedule.{ValidationError}

pub data Error : Type 0 where
  driver : Error
  no_rows : Error
  out_of_range : Error
  check_violation : Error
  foreign_key_violation : Error
  not_found : Error
  forbidden : Error
  unknown_checkin_kind : Error
  unique_violation : Error
  slug_retries_exhausted : Error
  cancelled : Error
  unfinished : Error
  -- A text that is not UTF-8, or has a NUL.
  invalid_text : Error
  invalid_api_key : Error
  no_randomness : Error
  invalid_schedule : ValidationError → Error

pub data Result (A : Type 0) : Type 0 where
  ok : A → Result A
  err : Error → Result A
