-- ===== src/Db/Stats/Downtime.antt =====
-- The downtime of a day is the time in it during which the last transition was a `down`.
use ping.Prelude.{
  ℕ, zero, suc, ◌+◌, ◌≤◌, ◌<◌, ◌≡◌, refl, sym, ap, ap₂, ◌∙◌, inl, inr, Bool, true, false, ◌&&◌,
  List, [], ◌∷◌, select, ltb, leb, Bool-cases, if◌then◌else◌, arith, All,
}
use ping.Schedule.{Instant}
use ping.Db.{Db, Event}
use ping.Db.Sort.{insert_by, sort_by, All-insert_by}
use ping.Db.Stats.{
  Outage, is_down_type, is_up_type, transitions, resolved_at, outages, overlap, touches,
  total_overlap, downtime,
}
use ping.Db.Stats.Sums.{one, sum_over, ticks, sum_over-cong, sum_over-add, sum_over-zero}

-- Whether the last of these transitions, at the time or before it, is a `down`.
abbrev pub down_after : Bool → List Event → Instant → Bool
down_after b [] t = b
down_after b (e ∷ es) t = if leb e.created_at t then down_after (is_down_type e.type) es t else b

-- No `down` follows a `down`.
abbrev pub IsAlternating : List Event → Type 0
IsAlternating [] = Unit
IsAlternating (e ∷ []) = Unit
IsAlternating (e ∷ f ∷ es) =
    (is_down_type e.type ≡ true → is_up_type f.type ≡ true) × IsAlternating (f ∷ es)

abbrev IsSorted : List Event → Type 0
IsSorted [] = Unit
IsSorted (e ∷ es) = All (λ f. e.created_at ≤ f.created_at) es × IsSorted es

abbrev lasts : Outage → Instant → Bool
lasts o t = leb o.down_at t && ltb t o.resolved_at

abbrev hits : List Outage → Instant → ℕ
hits [] t = 0
hits (o ∷ os) t = one (lasts o t) + hits os t

hits_before :
    (day_end t : Instant) (es : List Event)
    → All (λ f. t < f.created_at) es
    → hits (outages day_end es) t ≡ 0
unfolding outages
hits_before day_end t [] h = refl
hits_before day_end t (e ∷ es) (p, h) = elim (Bool-cases (is_down_type e.type)) [
  | inl d ↦ rw d (ground (arith, hits_before day_end t es h))
  | inr d ↦ rw d (hits_before day_end t es h)
]

later :
    (t a : Instant) (es : List Event)
    → t < a
    → All (λ f. a ≤ f.created_at) es
    → All (λ f. t < f.created_at) es
later t a [] l h = tt
later t a (e ∷ es) l (p, h) = (omega arith, later t a es l h)

hits-cons :
    (day_end t : Instant) (e : Event) (es : List Event)
    → hits (outages day_end (e ∷ es)) t
      ≡ (if is_down_type e.type
          then one (leb e.created_at t && ltb t (resolved_at day_end es))
          else 0)
        + hits (outages day_end es) t
unfolding outages
hits-cons day_end t e es = elim (Bool-cases (is_down_type e.type)) [
  | inl d ↦ rw d refl
  | inr d ↦ rw d (omega arith)
]

module _ (day_end t : Instant) (e f : Event) (es : List Event) where
  -- The next transition is past: the outage that it ends is over.
  passed :
      All (λ g. e.created_at ≤ g.created_at) (f ∷ es)
      → (is_down_type e.type ≡ true → is_up_type f.type ≡ true)
      → leb f.created_at t ≡ true
      → hits (outages day_end (f ∷ es)) t ≡ one (down_after false (f ∷ es) t)
      → hits (outages day_end (e ∷ f ∷ es)) t ≡ one (down_after false (e ∷ f ∷ es) t)
  passed (p, _) u q ih = hits-cons day_end t e (f ∷ es) ∙ (elim (Bool-cases (is_down_type e.type)) [
    | inl d ↦ rw (d, u d) (ground (arith, ih, q))
    | inr d ↦ rw d (ground (arith, ih, q))
  ])

  pending :
      (is_down_type e.type ≡ true → is_up_type f.type ≡ true)
      → t < f.created_at
      → hits (outages day_end (f ∷ es)) t ≡ 0
      → hits (outages day_end (e ∷ f ∷ es)) t ≡ one (down_after false (e ∷ f ∷ es) t)
  pending u early none_yet =
      hits-cons day_end t e (f ∷ es) ∙ (elim (Bool-cases (is_down_type e.type)) [
        | inl d ↦
            rw (d, u d)
              (elim (Bool-cases (leb e.created_at t)) [
                | inl k ↦ rw k (ground (arith, none_yet, early, d))
                | inr k ↦ rw k (ground (arith, none_yet, early, d))
              ])
        | inr d ↦ rw d (ground (arith, none_yet, early, d))
      ])

no_earlier :
    (a b : Instant) (es : List Event)
    → a ≤ b
    → All (λ f. b ≤ f.created_at) es
    → All (λ f. a ≤ f.created_at) es
no_earlier a b [] l h = tt
no_earlier a b (e ∷ es) l (p, h) = (omega arith, no_earlier a b es l h)

-- At each instant of the day, one outage lasts if the monitor is down, and none if it is not.
hits_lem :
    (day_end t : Instant) (es : List Event)
    → t < day_end
    → IsSorted es
    → IsAlternating es
    → hits (outages day_end es) t ≡ one (down_after false es t)
unfolding outages
hits_lem day_end t [] l s a = refl
hits_lem day_end t (e ∷ []) l s a = ground arith
hits_lem day_end t (e ∷ f ∷ es) l (h, (k, s)) (u, a) = elim (Bool-cases (leb f.created_at t)) [
  | inl q ↦ passed day_end t e f es h u q (hits_lem day_end t (f ∷ es) l (k, s) a)
  | inr q ↦
      let early : t < f.created_at = ground arith in
      pending day_end t e f es u early
        (hits_before day_end t (f ∷ es) (early, later t f.created_at es early k))
]

-- The part of an outage in the day is the number of instants of the day at which it lasts.
overlap_lem : (lo n : ℕ) (o : Outage) → ticks (lasts o) lo n ≡ overlap lo (lo + n) o
unfolding sum_over
overlap_lem lo zero o = ground arith
overlap_lem lo (suc n) o = ground (arith, overlap_lem lo n o)

total_lem : (lo n : ℕ) (os : List Outage) → total_overlap lo (lo + n) os ≡ sum_over (hits os) lo n
unfolding total_overlap
total_lem lo n [] = sym (sum_over-zero lo n)
total_lem lo n (o ∷ os) =
    ap₂ (λ a b. a + b) (sym (overlap_lem lo n o)) (total_lem lo n os)
    ∙ sym (sum_over-add (λ t. one (lasts o t)) (hits os) lo n)

-- What does not touch the day adds nothing.
touching_lem :
    (lo hi : ℕ) (os : List Outage)
    → total_overlap lo hi (select (touches lo hi) os) ≡ total_overlap lo hi os
unfolding total_overlap select
touching_lem lo hi [] = refl
touching_lem lo hi (o ∷ os) = elim (Bool-cases (touches lo hi o)) [
  | inl e ↦ rw e (ap (λ n. overlap lo hi o + n) (touching_lem lo hi os))
  | inr e ↦
      let nothing : overlap lo hi o ≡ 0 = ground (arith, e) in
      rw e (omega (arith, touching_lem lo hi os, nothing))
]

insert-IsSorted :
    (e : Event) (es : List Event) → IsSorted es → IsSorted (insert_by (λ f. f.created_at) e es)
unfolding insert_by
insert-IsSorted e [] h = (tt, tt)
insert-IsSorted e (f ∷ es) (a, h) = elim (Bool-cases (leb e.created_at f.created_at)) [
  | inl q ↦
      let l : e.created_at ≤ f.created_at = ground arith in
      rw q ((l, no_earlier e.created_at f.created_at es l a), (a, h))
  | inr q ↦ rw q (
    All-insert_by (λ g. f.created_at ≤ g.created_at) (λ g. g.created_at) e es (ground arith) a,
    insert-IsSorted e es h,
  )
]

sort-IsSorted : (es : List Event) → IsSorted (sort_by (λ e. e.created_at) es)
unfolding sort_by
sort-IsSorted [] = tt
sort-IsSorted (e ∷ es) = insert-IsSorted e (sort_by (λ f. f.created_at) es) (sort-IsSorted es)

-- Where no `down` follows a `down`, the downtime of a day is the number of instants of the day at
-- which the last transition of the monitor was a `down`.
pub downtime_lem :
    (day_start length_of_day i : ℕ) (db : Db)
    → IsAlternating (transitions (day_start + length_of_day) i db)
    → downtime day_start (day_start + length_of_day) i db
      ≡ ticks
          (down_after false (transitions (day_start + length_of_day) i db))
          day_start
          length_of_day
unfolding downtime
downtime_lem lo n i db a =
    let es = transitions (lo + n) i db in
    touching_lem lo (lo + n) (outages (lo + n) es)
    ∙ total_lem lo n (outages (lo + n) es)
    ∙ sum_over-cong (hits (outages (lo + n) es)) (λ t. one (down_after false es t)) lo n
        (λ t l. hits_lem (lo + n) t es l (sort-IsSorted _) a)
