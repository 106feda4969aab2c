-- ===== src/Store/Monitors/Laws.antt =====
-- What the creation, the change and the deletion of a monitor leave.
use ping.Prelude.{
  ℕ, ◌≡◌, refl, sym, ap, ◌∙◌, inl, inr, false, ◌&&◌, Option, none, some, [], ◌∷◌, ◌++◌, find,
  update_where, is_some, Bool-cases, arith,
}
use ping.Db.{Db, Monitor, has_id, EventType, Meta, text}
use ping.Db.Result.{ok}
use ping.Db.Edits
use ping.Db.Edits.{
  created_row, is_known_kind, is_known_method, has_user, updated_row, without_monitor,
}
use ping.Db.Monitors.{is_owned, update_owned, has_slug}
use ping.Store.Steps.{
  Ensures, weaken, pure-Ensures, exec-Ensures, missing-Ensures, with_tx-Ensures, >>=-Ensures,
}
use ping.Store.Tx.{
  IsAtomic, Faithful, with_tx-IsAtomic, >>=-Faithful, exec-Faithful, pure-Faithful,
  missing-Faithful,
}
use ping.Store.Timeline.{noted, event_meta-Ensures, event_meta-Faithful}
use ping.Store.Events.Laws.{owned_value}
use ping.Store.Monitors.{
  UpdateMonitorParams, update_params, update_monitor, note_change, changed_fields_meta,
}

-- The event of a change, if there is one.
abbrev pub change_noted : ℕ → Option Meta → Db → Db
change_noted i none d = d
change_noted i (some meta) d = noted i EventType.config_change (text "Configuration updated") meta d

note-Ensures :
    (i : ℕ) (o : Option Meta) (row : Monitor)
    → Ensures (note_change i o row) (λ d r d'. (r ≡ row) × (d' ≡ change_noted i o d))
note-Ensures i none row = pure-Ensures row
note-Ensures i (some meta) row =
    weaken
      (>>=-Ensures
        (event_meta-Ensures i EventType.config_change (text "Configuration updated") meta)
        (λ e. pure-Ensures row))
      (λ d r d' (e, d₁, (_, q), (a, b)). (a, b ∙ q))

updated_value :
    (p : Edits.UpdateMonitorParams) (i user : ℕ) (d : Db) (r : Monitor) (d' : Db)
    → Edits.update_monitor p i user d ≡ ok (r, d')
    → update_owned i user (updated_row p d.now) d ≡ ok (r, d')
unfolding Edits.update_monitor
updated_value p i user d r d' h =
    elim (Bool-cases (is_known_kind p.schedule_kind && is_known_method p.method)) [
      | inl e ↦ rw e at h
      | inr e ↦ elim (Bool-cases (is_some (find (is_owned i user) d.monitors))) [
        | inl q ↦ absurd (ground (arith, rw (e, q) at h))
        | inr q ↦ rw (e, q) at h
      ]
    ]

-- The row and the event of a PATCH.
abbrev pub Patched : ℕ → ℕ → UpdateMonitorParams → Db → Monitor → Db → Type 0
Patched i user p d r d' =
    (m : Monitor) × (find (is_owned i user) d.monitors ≡ some m)
    × (r ≡ updated_row (update_params p) d.now m)
    × (d'
        ≡ change_noted r.id (changed_fields_meta p) (record d {
          monitors =
              update_where (is_owned i user) (updated_row (update_params p) d.now) d.monitors;
        }))

pub update-Ensures :
    (i user : ℕ) (p : UpdateMonitorParams) → Ensures (update_monitor i user p) (Patched i user p)
unfolding update_monitor
update-Ensures i user p =
    weaken
      (with_tx-Ensures (
        >>=-Ensures (missing-Ensures (exec-Ensures (Edits.update_monitor (update_params p) i user)))
          (λ row. note-Ensures row.id (changed_fields_meta p) row)))
      (λ d r d' (row, d₁, q, (a, b)).
        let (m, found, same, there) =
          owned_value i user (updated_row (update_params p) d.now) d
            (find (is_owned i user) d.monitors) row d₁ refl
            (updated_value (update_params p) i user d row d₁ q) in
        (
          m,
          found,
          a ∙ same,
          b
              ∙ ap (change_noted row.id (changed_fields_meta p)) there
              ∙ ap (λ (x : Monitor). change_noted x.id (changed_fields_meta p) _) (sym a),
        ))

-- What an insertion that succeeds says: neither the slug nor the id was given out before.
pub create_monitor_ok :
    (id : ℕ) (p : Edits.CreateMonitorParams) (d : Db) (r : Monitor) (d' : Db)
    → Edits.create_monitor id p d ≡ ok (r, d')
    → (is_some (find (has_slug p.slug) d.monitors) ≡ false)
      × (is_some (find (has_id id) d.monitors) ≡ false)
      × (r ≡ created_row id p d.now)
      × (d' ≡ record d { monitors = d.monitors ++ r ∷ [] })
unfolding Edits.create_monitor
create_monitor_ok id p d r d' h =
    elim (Bool-cases (is_known_kind p.schedule_kind && is_known_method p.method)) [
      | inr a ↦ absurd (ground (arith, rw a at h))
      | inl a ↦ elim (Bool-cases (is_some (find (has_slug p.slug) d.monitors))) [
        | inl b ↦ absurd (ground (arith, rw (a, b) at h))
        | inr b ↦ elim (Bool-cases (is_some (find (has_id id) d.monitors))) [
          | inl c ↦ absurd (ground (arith, rw (a, b, c) at h))
          | inr c ↦ elim (Bool-cases (is_some (find (has_user p.user_id) d.users))) [
            | inr e ↦ absurd (ground (arith, rw (a, b, c, e) at h))
            | inl e ↦
                (b, c, ground (arith, rw (a, b, c, e) at h), ground (arith, rw (a, b, c, e) at h))
          ]
        ]
      ]
    ]

note-Faithful : (i : ℕ) (o : Option Meta) (row : Monitor) → Faithful (note_change i o row)
note-Faithful i none row = pure-Faithful row
note-Faithful i (some meta) row =
    >>=-Faithful (event_meta-Faithful i EventType.config_change (text "Configuration updated") meta)
      (λ e. pure-Faithful row)

pub update-IsAtomic : (i user : ℕ) (p : UpdateMonitorParams) → IsAtomic (update_monitor i user p)
unfolding update_monitor
update-IsAtomic i user p = with_tx-IsAtomic (
    >>=-Faithful (missing-Faithful (exec-Faithful _))
      (λ row. note-Faithful row.id (changed_fields_meta p) row))
