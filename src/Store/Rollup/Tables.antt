-- ===== src/Store/Rollup/Tables.antt =====
-- The batches of check-ins and of probe results: a table of its own, whose old rows go.
use mathlib.Core.Path.{subst}
use ping.Prelude.{
  ℕ, ◌+◌, ◌-◌, ◌*◌, ◌<◌, ◌≡◌, refl, sym, ap, ◌∙◌, Bool, false, not, List, length, select, arith,
}
use ping.Schedule.{Instant}
use ping.Db.{Db}
use ping.Db.Batches.{
  chosen, without, checkin_id, probe_id, is_old_checkin, is_old_probe, delete_old_checkins_batch,
  delete_old_probe_results_batch,
}
use ping.Db.Batches.Laws.{
  IsDistinct, IsDistinct-select, length-drop, batch_kept, batch_left, batch_count, select_rest,
}
use ping.Store.Returns.{Returns}
use ping.Store.Rollup.{drain_batches, batch}
use ping.Store.Rollup.Drain.{Deletes, drain-Returns}

module _ {A : Type 0} (id : A → ℕ) (column : Db → List A) (with_column : List A → Db → Db)
    (column-with : (xs : List A) (d : Db) → column (with_column xs d) ≡ xs)
    (with-with : (xs ys : List A) (d : Db) → with_column ys (with_column xs d) ≡ with_column ys d)
    (with_self : (d : Db) → with_column (column d) d ≡ d) (is_old : A → Bool) (limit : ℕ) where
  abbrev pub batch_of : Db → ℕ × Db
  batch_of d =
      let rest = without id (chosen id is_old limit (column d)) (column d) in
      (length (column d) - length rest, with_column rest d)

  -- The other tables are those of `d₀`, and the rows that are not old are all there.
  abbrev Spared : Db → Db → Type 0
  Spared d₀ d =
      IsDistinct id (column d)
      × (select (λ x. not (is_old x)) (column d) ≡ select (λ x. not (is_old x)) (column d₀))
      × (d ≡ with_column (column d) d₀)

  abbrev old_rows : Db → ℕ
  old_rows d = length (select is_old (column d))

  batch-Deletes : (d₀ : Db) → Deletes limit old_rows (Spared d₀) batch_of
  batch-Deletes d₀ = record {
    count = λ d (h, _, _). batch_count id is_old limit (column d) h;
    rest = λ d (h, _, _).
        ap (λ xs. length (select is_old xs)) (column-with _ d)
        ∙ ap length (batch_left id is_old limit (column d) h)
        ∙ length-drop limit (select is_old (column d));
    keep = λ d (h, e, s).
        let rest = without id (chosen id is_old limit (column d)) (column d) in
        let same = column-with rest d in
        (
          subst (IsDistinct id) (sym same) (IsDistinct-select id _ (column d) h),
          ap (select (λ x. not (is_old x))) same ∙ batch_kept id is_old limit (column d) h ∙ e,
          ap (with_column rest) s
              ∙ with-with (column d) rest d₀
              ∙ ap (λ xs. with_column xs d₀) (sym same),
        );
  }

  module _ (is_cancelled : ℕ → Bool) (go : (n : ℕ) → is_cancelled n ≡ false)
      (some_rows : 0 < limit) where
    -- The loop deletes the old rows of its table, and nothing else.
    pub table-Returns :
        (fuel : ℕ) (d : Db)
        → length (select is_old (column d)) < fuel * limit
        → IsDistinct id (column d)
        → Returns
            (drain_batches is_cancelled limit fuel (batch batch_of) 0)
            d
            (length (select is_old (column d)))
            (with_column (select (λ x. not (is_old x)) (column d)) d)
    table-Returns fuel d l h =
        let (d', runs, none_left, (_, kept, same)) =
          drain-Returns is_cancelled go limit some_rows old_rows (Spared d) batch_of
            (batch-Deletes d) fuel 0 d l (h, refl, sym (with_self d)) in
        let emptied : d' ≡ with_column (select (λ x. not (is_old x)) (column d)) d =
          same
          ∙ ap (λ xs. with_column xs d) (sym (select_rest is_old (column d') none_left) ∙ kept) in
        let loop = drain_batches is_cancelled limit fuel (batch batch_of) 0 in
        let sum : 0 + old_rows d ≡ old_rows d = omega arith in
        subst (λ e. Returns loop d (old_rows d) e) emptied
          (subst (λ v. Returns loop d v d') sum runs)

module _ (is_cancelled : ℕ → Bool) (go : (n : ℕ) → is_cancelled n ≡ false) (cutoff : Instant)
    (limit : ℕ) (some_rows : 0 < limit) (fuel : ℕ) (d : Db) where
  pub checkins-Returns :
      length (select (is_old_checkin cutoff) d.checkins) < fuel * limit
      → IsDistinct checkin_id d.checkins
      → Returns
          (drain_batches is_cancelled limit fuel (batch (delete_old_checkins_batch cutoff limit)) 0)
          d
          (length (select (is_old_checkin cutoff) d.checkins))
          (record d { checkins = select (λ x. not (is_old_checkin cutoff x)) d.checkins })
  unfolding delete_old_checkins_batch
  checkins-Returns =
      table-Returns checkin_id (λ e. e.checkins) (λ xs e. record e { checkins = xs }) (λ xs e. refl)
        (λ xs ys e. refl) (λ e. refl) (is_old_checkin cutoff) limit is_cancelled go some_rows fuel d

  pub probe_results-Returns :
      length (select (is_old_probe cutoff) d.probe_results) < fuel * limit
      → IsDistinct probe_id d.probe_results
      → Returns
          (drain_batches is_cancelled limit fuel
            (batch (delete_old_probe_results_batch cutoff limit))
            0)
          d
          (length (select (is_old_probe cutoff) d.probe_results))
          (record d { probe_results = select (λ x. not (is_old_probe cutoff x)) d.probe_results })
  unfolding delete_old_probe_results_batch
  probe_results-Returns =
      table-Returns probe_id (λ e. e.probe_results) (λ xs e. record e { probe_results = xs })
        (λ xs e. refl) (λ xs ys e. refl) (λ e. refl) (is_old_probe cutoff) limit is_cancelled go
        some_rows fuel d
