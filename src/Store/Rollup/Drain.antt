-- ===== src/Store/Rollup/Drain.antt =====
-- The loop over the batches ends, and what it leaves.
use mathlib.Core.Path.{subst}
use ping.Prelude.{
  ℕ, zero, suc, ◌+◌, ◌-◌, ◌*◌, ◌<◌, ◌≡◌, refl, inl, inr, Bool, false, Bool-cases, if◌then◌else◌,
  ltb, arith,
}
use ping.Db.{Db}
use ping.Store.{Op}
use ping.Store.Returns.{Returns, pure-Returns, exec-Returns, >>=-Returns}
use ping.Store.Rollup.{drain_batches, batch, after_batch, unless_cancelled}

-- A statement that deletes up to `limit` of the rows that are left, and keeps `P`.
pub record Deletes (limit : ℕ) (left : Db → ℕ) (P : Db → Type 0) (f : Db → ℕ × Db) : Type 0 where
  pub count : (d : Db) → P d → (f d).0 ≡ (if ltb limit (left d) then limit else left d)
  pub rest : (d : Db) → P d → left (f d).1 ≡ left d - limit
  pub keep : (d : Db) → P d → P (f d).1

module _ (is_cancelled : ℕ → Bool) (go : (n : ℕ) → is_cancelled n ≡ false) (limit : ℕ)
    (some_rows : 0 < limit) (left : Db → ℕ) (P : Db → Type 0) (f : Db → ℕ × Db)
    (del : Deletes limit left P f) where
  uncancelled :
      (m : Op ℕ) (d : Db) (n : ℕ) (d' : Db)
      → Returns m d n d'
      → Returns (unless_cancelled is_cancelled m) d n d'
  uncancelled m d n d' h c e k = rw (go c.step) (h c e k)

  -- One turn of the loop: a batch, and what follows it.
  turn :
      (fuel total : ℕ) (d : Db) (v : ℕ) (d' : Db)
      → Returns
          (after_batch is_cancelled limit
            (total + (f d).0)
            (drain_batches is_cancelled limit fuel (batch f) (total + (f d).0))
            (f d).0)
          (f d).1
          v
          d'
      → Returns (drain_batches is_cancelled limit (suc fuel) (batch f) total) d v d'
  unfolding drain_batches
  turn fuel total d v d' h =
      uncancelled _ d v d' (>>=-Returns _ _ d (f d).0 (f d).1 v d' (exec-Returns _ d _ _ refl) h)

  -- With more fuel than full batches the loop ends; it counts the rows that were left, and leaves
  -- none.
  pub drain-Returns :
      (fuel total : ℕ) (d : Db)
      → left d < fuel * limit
      → P d
      → (d' : Db) × Returns
          (drain_batches is_cancelled limit fuel (batch f) total)
          d
          (total + left d)
          d'
        × (left d' ≡ 0)
        × P d'
  unfolding drain_batches
  drain-Returns zero total d l p = absurd (omega arith)
  drain-Returns (suc fuel) total d l p = elim (Bool-cases (ltb (f d).0 limit)) [
    | inl last ↦
        let done : (total + (f d).0 ≡ total + left d) × (left (f d).1 ≡ 0) =
          ground (arith, del.count d p, del.rest d p) in
        (
          (f d).1,
          subst
              (λ v.
                Returns (drain_batches is_cancelled limit (suc fuel) (batch f) total) d v (f d).1)
              done.0
              (turn fuel total d (total + (f d).0) (f d).1
                (rw (last, after_batch) (pure-Returns (total + (f d).0) (f d).1))),
          done.1,
          del.keep d p,
        )
    | inr full ↦
        let less : ((f d).0 ≡ limit)
            × (left (f d).1 + limit ≡ left d)
            × (left (f d).1 < fuel * limit) =
          ground (arith, del.count d p, del.rest d p) in
        let (d', runs, none_left, kept) =
          drain-Returns fuel (total + (f d).0) (f d).1 less.2 (del.keep d p) in
        let sum : total + (f d).0 + left (f d).1 ≡ total + left d = omega arith in
        (
          d',
          subst (λ v. Returns (drain_batches is_cancelled limit (suc fuel) (batch f) total) d v d')
              sum (turn fuel total d _ d' (rw (full, after_batch) runs)),
          none_left,
          kept,
        )
  ]
