-- ===== src/Server/Monitors/Laws.antt =====
-- A PATCH that the handler accepts, and the schedule of the row that the store makes of it.
use mathlib.Core.Path.{subst}
use ping.Prelude.{
  ℕ, suc, ◌*◌, ◌-◌, ◌≡◌, refl, ap, ◌∙◌, inl, inr, true, false, Option, none, some, Bool-cases,
  arith,
}
use ping.Prelude.Int.{pos}
use ping.Schedule.Laws.{stray_period}
use ping.Schedule.{second, Kind, Zones, Instant, ValidationError, Message, validate}
use ping.Schedule.Text.{is_empty}
use ping.Db.{Monitor, heartbeat}
use ping.Db.Edits.{updated_row}
use ping.Store.Checkin.{kind_or_empty, schedule_config}
use ping.Store.Monitors.{UpdateMonitorParams, update_params}
use ping.Server.Monitors.{
  UpdateMonitorRequest, accepted, Formats, merge_schedule_config, sets_schedule, sets_probe,
  schedule_params, common_params, validate_kind, validate_update, accept_unless, schedule_refusal,
  is_named_empty, or_kind,
}
use ping.Server.Monitors.Rows.{IsSteady, row_schedule, merged_kind, switched_row}

accept_value :
    {A : Type 0} (o : Option ValidationError) (a p : A)
    → accept_unless (schedule_refusal o) a ≡ accepted p
    → (o ≡ none) × (p ≡ a)
accept_value none a p h = (refl, ground arith)
accept_value (some e) a p h = absurd (ground arith)

-- What an accepted PATCH of a heartbeat monitor says.
accepted_schedule :
    (z : Zones) (formats : Formats) (m : Monitor) (req : UpdateMonitorRequest)
    (p : UpdateMonitorParams)
    → sets_schedule req.schedule ≡ true
    → validate_kind z formats heartbeat m req ≡ accepted p
    → (validate z (merge_schedule_config m req.schedule) ≡ none)
      × (p ≡ schedule_params req.schedule (common_params req))
unfolding validate_kind
accepted_schedule z formats m req p s h = elim (Bool-cases (sets_probe req.probe)) [
  | inl e ↦ absurd (ground (arith, rw e at h))
  | inr e ↦ accept_value (validate z (merge_schedule_config m req.schedule)) _ p (rw (e, s) at h)
]

accepted_common :
    (z : Zones) (formats : Formats) (m : Monitor) (req : UpdateMonitorRequest)
    (p : UpdateMonitorParams)
    → sets_schedule req.schedule ≡ false
    → validate_kind z formats heartbeat m req ≡ accepted p
    → p ≡ common_params req
unfolding validate_kind
accepted_common z formats m req p s h = elim (Bool-cases (sets_probe req.probe)) [
  | inl e ↦ absurd (ground (arith, rw e at h))
  | inr e ↦ ground (arith, rw (e, s) at h)
]

named :
    (z : Zones) (formats : Formats) (m : Monitor) (req : UpdateMonitorRequest)
    (p : UpdateMonitorParams)
    → validate_update z formats m req ≡ accepted p
    → validate_kind z formats m.kind m req ≡ accepted p
unfolding validate_update
named z formats m req p h = elim (Bool-cases (is_named_empty req.name)) [
  | inl e ↦ absurd (ground (arith, rw e at h))
  | inr e ↦ rw e at h
]

module _ (z : Zones) (formats : Formats) (m : Monitor) (req : UpdateMonitorRequest)
    (p : UpdateMonitorParams) (now : Instant) where
  heartbeat_kind :
      m.kind ≡ heartbeat
      → validate_update z formats m req ≡ accepted p
      → validate_kind z formats heartbeat m req ≡ accepted p
  heartbeat_kind k h =
      subst (λ x. validate_kind z formats x m req ≡ accepted p) k (named z formats m req p h)

  -- A PATCH of a heartbeat monitor that is accepted, and does not go from a period to an expression
  -- or back, keeps the schedule of the stored row valid.
  pub patched_schedule :
      m.kind ≡ heartbeat
      → validate_update z formats m req ≡ accepted p
      → IsSteady m req.schedule
      → validate z (schedule_config m) ≡ none
      → validate z (schedule_config (updated_row (update_params p) now m)) ≡ none
  unfolding schedule_config
  patched_schedule k h steady valid = elim (Bool-cases (sets_schedule req.schedule)) [
    | inl s ↦
        let (v, q) = accepted_schedule z formats m req p s (heartbeat_kind k h) in
        ap (λ x. validate z (schedule_config (updated_row (update_params x) now m))) q
        ∙ ap (validate z) (row_schedule req now m steady)
        ∙ v
    | inr s ↦
        ap (λ x. validate z (schedule_config (updated_row (update_params x) now m)))
          (accepted_common z formats m req p s (heartbeat_kind k h))
        ∙ valid
  ]

  -- Where a PATCH of a heartbeat monitor with a period is accepted that names the kind cron and an
  -- expression and no period, the stored row keeps the period, and its schedule is refused.
  pub switched_schedule :
      (n : ℕ)
      → m.kind ≡ heartbeat
      → m.period_s ≡ some (pos (suc n))
      → req.schedule.period_s ≡ none
      → req.schedule.schedule_kind ≡ some Kind.cron
      → is_empty req.schedule.cron_expr ≡ false
      → validate_update z formats m req ≡ accepted p
      → validate z (schedule_config (updated_row (update_params p) now m))
        ≡ some (record { field = "period_s"; message = Message.must_be_zero })
  switched_schedule n k per same kind expr h =
      let f = req.schedule in
      let cfg = merge_schedule_config m f in
      let s : sets_schedule f ≡ true = rw kind refl in
      let (valid, q) = accepted_schedule z formats m req p s (heartbeat_kind k h) in
      ap (λ x. validate z (schedule_config (updated_row (update_params x) now m))) q
      ∙ ap (validate z) (switched_row req now m n per same expr)
      ∙ stray_period z cfg ((suc n) * second - 1)
          (merged_kind m f ∙ ap (λ o. or_kind o (kind_or_empty m.schedule_kind)) kind) valid
