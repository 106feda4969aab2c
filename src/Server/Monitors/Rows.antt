-- ===== src/Server/Monitors/Rows.antt =====
-- The schedule of the row that the store makes of a PATCH.
use ping.Prelude.{
  ℕ, suc, ◌*◌, ◌-◌, ◌≡◌, refl, sym, ap, ap₂, ◌∙◌, inl, inr, String, true, false, Option, none, some,
  is_some, Bool-cases, arith,
}
use ping.Prelude.Int.{ℤ, pos}
use ping.Schedule.{second, Config, Kind, Instant}
use ping.Schedule.Text.{is_empty}
use ping.Db.{Monitor}
use ping.Db.Edits.{updated_row, coalesce, coalesce_null}
use ping.Store.Checkin.{
  text_or_null, seconds_or_zero, kind_or_empty, string_or_empty, schedule_config,
}
use ping.Store.Monitors.{update_params}
use ping.Server.Monitors.{
  ScheduleFields, UpdateMonitorRequest, merge_schedule_config, schedule_params, common_params,
  with_cron, with_period, or_kind, or_text, or_seconds,
}

-- The PATCH does not go from a period to an expression, or back, or carry both.
abbrev pub IsSteady : Monitor → ScheduleFields → Type 0
IsSteady m f =
    (is_some f.period_s ≡ true → (is_empty f.cron_expr ≡ true) × (m.cron_expr ≡ none))
    × (is_empty f.cron_expr ≡ false → m.period_s ≡ none)

-- The row that the store makes of accepted fields of a schedule.
abbrev pub scheduled_row : UpdateMonitorRequest → Instant → Monitor → Monitor
scheduled_row req now m =
    updated_row (update_params (schedule_params req.schedule (common_params req))) now m

or_kind_lem :
    (o old : Option Kind) → kind_or_empty (coalesce_null o old) ≡ or_kind o (kind_or_empty old)
or_kind_lem none old = refl
or_kind_lem (some k) old = refl

or_text_lem : (s old : String) → coalesce (text_or_null s) old ≡ or_text s old
or_text_lem s old = elim (Bool-cases (is_empty s)) [ inl e ↦ rw e refl | inr e ↦ rw e refl ]

or_seconds_lem :
    (o old : Option ℤ) → seconds_or_zero (coalesce_null o old) ≡ or_seconds o (seconds_or_zero old)
or_seconds_lem none old = refl
or_seconds_lem (some s) old = refl

pub config_path :
    (a b : Config)
    → a.kind ≡ b.kind
    → a.period ≡ b.period
    → a.cron_expr ≡ b.cron_expr
    → a.tz ≡ b.tz
    → a.grace ≡ b.grace
    → a ≡ b
config_path a b k p c t g =
    λ i. record { kind = k i; period = p i; cron_expr = c i; tz = t i; grace = g i }

-- The period and the expression of the row are those of the merged configuration.
steady_times :
    (o op : Option ℤ) (c : String) (oc : Option String) (cfg : Config)
    → cfg.period ≡ seconds_or_zero op
    → cfg.cron_expr ≡ string_or_empty oc
    → (is_some o ≡ true → (is_empty c ≡ true) × (oc ≡ none))
    → (is_empty c ≡ false → op ≡ none)
    → (seconds_or_zero (coalesce_null o op) ≡ (with_cron c (with_period o cfg)).period)
      × (string_or_empty (coalesce_null (text_or_null c) oc)
          ≡ (with_cron c (with_period o cfg)).cron_expr)
steady_times none op c oc cfg p q h k = elim (Bool-cases (is_empty c)) [
  | inl e ↦ rw e (sym p, sym q)
  | inr e ↦ rw e (ap seconds_or_zero (k e), refl)
]
steady_times (some v) op c oc cfg p q h k =
    let (e, gone) = h refl in rw e (refl, ap string_or_empty gone)

-- The times leave the other fields.
times_kept :
    (o : Option ℤ) (c : String) (cfg : Config)
    → ((with_cron c (with_period o cfg)).kind ≡ cfg.kind)
      × ((with_cron c (with_period o cfg)).tz ≡ cfg.tz)
      × ((with_cron c (with_period o cfg)).grace ≡ cfg.grace)
times_kept none c cfg = elim (Bool-cases (is_empty c)) [
  | inl e ↦ rw e (refl, refl, refl)
  | inr e ↦ rw e (refl, refl, refl)
]
times_kept (some v) c cfg = elim (Bool-cases (is_empty c)) [
  | inl e ↦ rw e (refl, refl, refl)
  | inr e ↦ rw e (refl, refl, refl)
]

pub row_schedule :
    (req : UpdateMonitorRequest) (now : Instant) (m : Monitor)
    → IsSteady m req.schedule
    → schedule_config (scheduled_row req now m) ≡ merge_schedule_config m req.schedule
unfolding schedule_config merge_schedule_config
row_schedule req now m (h, k) =
    let f = req.schedule in
    let old = schedule_config m in
    let (p, c) =
      steady_times f.period_s m.period_s f.cron_expr m.cron_expr
        (record old { kind = or_kind f.schedule_kind old.kind }) refl refl h k in
    let (kind, tz, grace) =
      times_kept f.period_s f.cron_expr (record old { kind = or_kind f.schedule_kind old.kind }) in
    config_path (schedule_config (scheduled_row req now m)) (merge_schedule_config m f)
      (or_kind_lem f.schedule_kind m.schedule_kind ∙ sym kind) p c
      (or_text_lem f.tz m.tz ∙ ap (or_text f.tz) (sym tz))
      (or_seconds_lem f.grace_s m.grace_s ∙ ap (or_seconds f.grace_s) (sym grace))

pub merged_kind :
    (m : Monitor) (f : ScheduleFields)
    → (merge_schedule_config m f).kind ≡ or_kind f.schedule_kind (kind_or_empty m.schedule_kind)
unfolding merge_schedule_config schedule_config
merged_kind m f =
    let old = schedule_config m in
    (times_kept f.period_s f.cron_expr (record old { kind = or_kind f.schedule_kind old.kind })).0

pub switched_row :
    (req : UpdateMonitorRequest) (now : Instant) (m : Monitor) (n : ℕ)
    → m.period_s ≡ some (pos (suc n))
    → req.schedule.period_s ≡ none
    → is_empty req.schedule.cron_expr ≡ false
    → schedule_config (scheduled_row req now m)
      ≡ record (merge_schedule_config m req.schedule) { period = pos (suc (suc n * second - 1)) }
unfolding schedule_config merge_schedule_config
switched_row req now m n per same expr =
    let f = req.schedule in
    let old = schedule_config m in
    let (kind, tz, grace) =
      times_kept f.period_s f.cron_expr (record old { kind = or_kind f.schedule_kind old.kind }) in
    let long : suc n * second ≡ suc (suc n * second - 1) = omega arith in
    config_path (schedule_config (scheduled_row req now m))
      (record (merge_schedule_config m f) { period = pos (suc (suc n * second - 1)) })
      (or_kind_lem f.schedule_kind m.schedule_kind ∙ sym kind)
      (ap₂ (λ o op. seconds_or_zero (coalesce_null o op)) same per ∙ ap pos long) (rw expr refl)
      (or_text_lem f.tz m.tz ∙ ap (or_text f.tz) (sym tz))
      (or_seconds_lem f.grace_s m.grace_s ∙ ap (or_seconds f.grace_s) (sym grace))
