-- ===== src/Worker/Alerter/Sends.antt =====
-- What the dispatch of an alert gives to the channel, whatever statements fail.
use ping.Prelude.{
  ◌≡◌, refl, ap, ◌∙◌, ◌⊎◌, inl, inr, Bool, true, false, String, Option, none, some, [], ◌∷◌, ◌++◌,
  arith, if◌then◌else◌,
}
use ping.Schedule.{Duration}
use ping.Db.{EventType}
use ping.Db.Result.{Result, ok, err}
use ping.Alert.{SendFailure, NotificationKind, Notification}
use ping.Store.{Op}
use ping.Store.Alerter.{AlertJob}
use ping.Worker.Alerter.{
  World, perform, attempt, now, send, fail, with_downtime, render_event, render, retry_or_fail,
  after_send, after_render, dispatch,
}

attempt_outgoing : {A : Type 0} (m : Op A) (w : World) → (attempt m w).outgoing ≡ w.outgoing
unfolding attempt perform
attempt_outgoing m w = refl

fail_outgoing :
    (job : AlertJob) (reason : String) (w : World) → (fail job reason w).outgoing ≡ w.outgoing
unfolding fail attempt perform
fail_outgoing job reason w = refl

downtime_outgoing :
    (base_url : String) (job : AlertJob) (kind : NotificationKind) (r : Result Duration × World)
    → (with_downtime base_url job kind r).1.outgoing ≡ r.1.outgoing
downtime_outgoing base_url job kind (ok d, w) = refl
downtime_outgoing base_url job kind (err e, w) = refl

event_outgoing :
    (base_url : String) (job : AlertJob) (t : EventType) (w : World)
    → (render_event base_url job t w).1.outgoing ≡ w.outgoing
unfolding render_event perform
event_outgoing base_url job EventType.up w = downtime_outgoing base_url job NotificationKind.up _
event_outgoing base_url job EventType.tls_expiry w = refl
event_outgoing base_url job _ w = refl

render_outgoing :
    (base_url : String) (job : AlertJob) (w : World)
    → (render base_url job w).1.outgoing ≡ w.outgoing
unfolding render perform now
render_outgoing base_url job w =
    either_outgoing job.is_reminder _ _ (downtime_outgoing base_url job NotificationKind.reminder _)
      (event_outgoing base_url job job.event_type w)
  where
    either_outgoing :
        (b : Bool) (r r' : Result Notification × World)
        → r.1.outgoing ≡ w.outgoing
        → r'.1.outgoing ≡ w.outgoing
        → (if b then r else r').1.outgoing ≡ w.outgoing
    either_outgoing true r r' h h' = h
    either_outgoing false r r' h h' = h'

retry_outgoing :
    (job : AlertJob) (e : SendFailure) (w : World) → (retry_or_fail job e w).outgoing ≡ w.outgoing
unfolding retry_or_fail fail attempt perform now
retry_outgoing job e w = ground arith

after_send_outgoing :
    (job : AlertJob) (o : Option SendFailure) (w : World)
    → (after_send job o w).outgoing ≡ w.outgoing
unfolding after_send attempt perform
after_send_outgoing job none w = refl
after_send_outgoing job (some e) w = retry_outgoing job e w

-- Nothing was sent, or one message to the recipient of the job.
abbrev pub Sent : AlertJob → World → World → Type 0
Sent job w w' =
    (w'.outgoing ≡ w.outgoing)
    ⊎ (n : Notification) × (w'.outgoing
        ≡ w.outgoing ++ (record { to = job.recipient; notification = n }) ∷ [])

rendered-Sent :
    (job : AlertJob) (w : World) (r : Result Notification) (w' : World)
    → w'.outgoing ≡ w.outgoing
    → Sent job w (after_render job r w')
unfolding after_render send fail attempt perform
rendered-Sent job w (err e) w' h = inl h
rendered-Sent job w (ok n) w' h = inr (
  n,
  after_send_outgoing job _ _
      ∙ ap (λ ms. ms ++ (record { to = job.recipient; notification = n }) ∷ []) h,
)

-- The switch of the dispatch, where only the rendered message is sent.
switched :
    (job : AlertJob) (w : World) (muted has_channel : Bool) (w₁ w₂ w₃ : World)
    → w₁.outgoing ≡ w.outgoing
    → w₃.outgoing ≡ w.outgoing
    → Sent job w w₂
    → let w' = if muted then w₁ else if has_channel then w₂ else w₃ in
      (muted ≡ true → w'.outgoing ≡ w.outgoing)
      × (has_channel ≡ false → w'.outgoing ≡ w.outgoing)
      × Sent job w w'
switched job w true c w₁ w₂ w₃ h h' s = (λ e. h, λ e. h, inl h)
switched job w false true w₁ w₂ w₃ h h' s =
    (λ e. absurd (ground arith), λ e. absurd (ground arith), s)
switched job w false false w₁ w₂ w₃ h h' s = (λ e. h', λ e. h', inl h')

-- A dispatch gives the channel at most one message, to the recipient of the job, and none if the
-- monitor is muted or there is no channel; so it is whatever statements fail.
pub dispatch_sends :
    (has_channel : Bool) (base_url : String) (job : AlertJob) (w : World)
    → (job.alerts_muted ≡ true → (dispatch has_channel base_url job w).outgoing ≡ w.outgoing)
      × (has_channel ≡ false → (dispatch has_channel base_url job w).outgoing ≡ w.outgoing)
      × Sent job w (dispatch has_channel base_url job w)
unfolding dispatch attempt perform fail
dispatch_sends has_channel base_url job w =
    switched job w job.alerts_muted has_channel _ _ _ refl refl (
      rendered-Sent job w (render base_url job w).0 (render base_url job w).1
        (render_outgoing base_url job w))
