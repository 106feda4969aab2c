-- ===== src/Server/Monitors/Creation/Laws.antt =====
-- The row that is stored of a new monitor.
use mathlib.Core.Path.{subst}
use text.Mathlib.Text.{◌==◌ as str_eq}
use ping.Prelude.{
  ℕ, ◌≡◌, refl, sym, ap, ◌∙◌, inl, inr, ◌⊎◌, String, Bool, true, false, not, Option, none, some,
  Bool-cases, if◌then◌else◌, arith,
}
use ping.Schedule.{Zones, Instant, ValidationError, validate}
use ping.Schedule.Laws.{validate_iff}
use ping.Schedule.Text.{is_empty}
use ping.Db.{Monitor, heartbeat, http}
use ping.Db.Edits.{created_row}
use ping.Store.Checkin.{text_or_null, string_or_empty, schedule_config}
use ping.Store.Monitors.{CreateMonitorParams, insert_params}
use ping.Server.Monitors.{
  HttpFields, FieldError, accepted, Formats, schedule_refusal, accept_unless, validate_http_fields,
  is_set_outside, min_interval_s, max_interval_s, min_timeout_s, max_timeout_s,
}
use ping.Server.Monitors.Rows.{config_path}
use ping.Server.Monitors.Creation.{
  CreateMonitorRequest, schedule_config_from_fields, heartbeat_params, http_params, refuse_if,
  heartbeat_refusal, http_refusal, validate_create,
}

accept_value :
    {A : Type 0} (o : Option FieldError) (a p : A)
    → accept_unless o a ≡ accepted p
    → (o ≡ none) × (p ≡ a)
accept_value none a p h = (refl, ground arith)
accept_value (some e) a p h = absurd (ground arith)

unrefused :
    (b : Bool) (e : FieldError) (o : Option FieldError)
    → refuse_if b e o ≡ none
    → (b ≡ false) × (o ≡ none)
unrefused true e none h = absurd (ground arith)
unrefused false e none h = (refl, refl)
unrefused b e (some x) h = absurd (ground arith)

schedule_unrefused : (o : Option ValidationError) → schedule_refusal o ≡ none → o ≡ none
schedule_unrefused none h = refl
schedule_unrefused (some e) h = absurd (ground arith)

module _ (z : Zones) (formats : Formats) (user : ℕ) where
  -- The fields of the kind that it is, and only those, are in an accepted request.
  abbrev pub IsAccepted : CreateMonitorRequest → CreateMonitorParams → Type 0
  IsAccepted req p =
      (p ≡ heartbeat_params user req)
        × (validate z (schedule_config_from_fields req.schedule) ≡ none)
      ⊎ (p ≡ http_params user req) × (validate_http_fields formats req.probe ≡ none)

  accepted_create :
      (req : CreateMonitorRequest) (p : CreateMonitorParams)
      → validate_create z formats user req ≡ accepted p
      → IsAccepted req p
  unfolding validate_create
  accepted_create req p h = elim (Bool-cases (is_empty req.name)) [
    | inl a ↦ absurd (ground (arith, rw a at h))
    | inr a ↦ elim (Bool-cases (str_eq req.kind "heartbeat")) [
      | inl b ↦
          let (o, q) =
            accept_value (heartbeat_refusal z formats user req) (heartbeat_params user req) p
              (rw (a, b) at h) in
          inl (q, schedule_unrefused _ (unrefused _ _ _ o).1)
      | inr b ↦ elim (Bool-cases (str_eq req.kind "http")) [
        | inl c ↦
            let (o, q) =
              accept_value (http_refusal z formats user req) (http_params user req) p
                (rw (a, b, c) at h) in
            inr (q, (unrefused _ _ _ o).1)
        | inr c ↦ absurd (ground (arith, rw (a, b, c) at h))
      ]
    ]
  ]

-- What an http monitor probes.
pub record IsProbe (formats : Formats) (m : Monitor) : Type 0 where
  pub no_schedule : (m.schedule_kind ≡ none) × (m.period_s ≡ none) × (m.cron_expr ≡ none)
  pub url : (u : String) × (m.url ≡ some u) × (formats.is_http_url u ≡ true)
  pub interval : is_set_outside min_interval_s max_interval_s m.interval_s ≡ false
  pub timeout : is_set_outside min_timeout_s max_timeout_s m.timeout_s ≡ false

null_text : (s : String) → string_or_empty (text_or_null s) ≡ s
null_text String.[] = refl
null_text (String.◌∷◌ c s) = refl

passed :
    (b : Bool) (e : FieldError) (o : Option FieldError)
    → (if b then some e else o) ≡ none
    → (b ≡ false) × (o ≡ none)
passed true e o h = absurd (ground arith)
passed false e o h = (refl, h)

negated : (b : Bool) → not b ≡ false → b ≡ true
negated true h = refl
negated false h = absurd (ground arith)

probe_fields :
    (formats : Formats) (f : HttpFields)
    → validate_http_fields formats f ≡ none
    → (is_empty f.url ≡ false)
      × (formats.is_http_url f.url ≡ true)
      × (is_set_outside min_interval_s max_interval_s f.interval_s ≡ false)
      × (is_set_outside min_timeout_s max_timeout_s f.timeout_s ≡ false)
unfolding validate_http_fields
probe_fields formats f h =
    let (named, h₁) = passed _ _ _ h in
    let (url, h₂) = passed _ _ _ h₁ in
    let (_, h₃) = passed _ _ _ h₂ in
    let (interval, h₄) = passed _ _ _ h₃ in
    let (timeout, _) = passed _ _ _ h₄ in (named, negated _ url, interval, timeout)

module _ (z : Zones) (formats : Formats) (user : ℕ) (id : ℕ) (slug : String) (now : Instant)
    (req : CreateMonitorRequest) where
  abbrev stored : CreateMonitorParams → Monitor
  stored p = created_row id (insert_params p slug) now

  scheduled :
      validate z (schedule_config_from_fields req.schedule) ≡ none
      → schedule_config (stored (heartbeat_params user req))
        ≡ schedule_config_from_fields req.schedule
  unfolding schedule_config schedule_config_from_fields
  scheduled h =
      let v = (validate_iff z (schedule_config_from_fields req.schedule)).0 h in
      config_path _ _ refl refl (null_text req.schedule.cron_expr)
        (ap (λ b. if b then "UTC" else req.schedule.tz) v.named) refl

  probed :
      validate_http_fields formats req.probe ≡ none
      → IsProbe formats (stored (http_params user req))
  probed h =
      let (named, ok, a, b) = probe_fields formats req.probe h in
      record {
        no_schedule = (refl, refl, refl);
        url = (req.probe.url, rw named refl, ok);
        interval = a;
        timeout = b;
      }

  -- The row that is stored of an accepted request for a new monitor is a heartbeat monitor with a
  -- valid schedule, or an http monitor with a URL to probe, an interval and a timeout within their
  -- bounds where they are given, and no schedule.
  pub created_lem :
      (p : CreateMonitorParams)
      → validate_create z formats user req ≡ accepted p
      → ((stored p).kind ≡ heartbeat) × (validate z (schedule_config (stored p)) ≡ none)
        ⊎ ((stored p).kind ≡ http) × IsProbe formats (stored p)
  created_lem p h = elim (accepted_create z formats user req p h) [
    | inl (q, v) ↦ inl (
      ap (λ x. (stored x).kind) q,
      ap (λ x. validate z (schedule_config (stored x))) q ∙ ap (validate z) (scheduled v) ∙ v,
    )
    | inr (q, v) ↦
        inr
          (ap (λ x. (stored x).kind) q, subst (λ x. IsProbe formats (stored x)) (sym q) (probed v))
  ]
