-- ===== src/Store/Rollup/Day/Merge.antt =====
-- The entry of a monitor after the loops over the rows.
use mathlib.Core.Path.{subst}
use ping.Prelude.{
  ℕ, ◌≡◌, refl, ap, ◌∙◌, inl, inr, false, Option, none, some, List, [], ◌∷◌, find, ◌==◌, ==_iff,
  All, Bool-cases, if◌then◌else◌, arith,
}
use ping.Db.Batches.Laws.{IsDistinct, Apart}
use ping.Store.Rollup.Day.{Stat, Stats, zero_stat, alter, merge}

abbrev pub look : ℕ → Stats → Option Stat
look i [] = none
look i ((j, s) ∷ m) = if j == i then some s else look i m

abbrev pub or_zero : Option Stat → Stat
or_zero none = zero_stat
or_zero (some s) = s

abbrev pub key_of : ℕ × Stat → ℕ
key_of e = e.0

look-alter :
    (i j : ℕ) (f : Stat → Stat) (m : Stats)
    → look i (alter j f m) ≡ (if j == i then some (f (or_zero (look i m))) else look i m)
unfolding alter
look-alter i j f [] = refl
look-alter i j f ((k, s) ∷ m) = ground (arith, look-alter i j f m)

alter-Apart :
    (i j : ℕ) (f : Stat → Stat) (m : Stats) (s : Stat)
    → (j == i) ≡ false
    → All (Apart key_of (i, s)) m
    → All (Apart key_of (i, s)) (alter j f m)
unfolding alter
alter-Apart i j f [] s e h = (e, tt)
alter-Apart i j f ((k, t) ∷ m) s e (p, h) = elim (Bool-cases (k == j)) [
  | inl q ↦ rw q (p, h)
  | inr q ↦ rw q (p, alter-Apart i j f m s e h)
]

alter-IsDistinct :
    (j : ℕ) (f : Stat → Stat) (m : Stats) → IsDistinct key_of m → IsDistinct key_of (alter j f m)
unfolding alter
alter-IsDistinct j f [] h = (tt, tt)
alter-IsDistinct j f ((k, s) ∷ m) (a, h) = elim (Bool-cases (k == j)) [
  | inl q ↦ rw q (a, h)
  | inr q ↦ rw q (alter-Apart k j f m s (ground arith) a, alter-IsDistinct j f m h)
]

module _ {R : Type 0} (id : R → ℕ) (set : R → Stat → Stat) where
  -- What a row of the monitor, if there is one, makes of the entry.
  abbrev pub written : Option R → Option Stat → Option Stat
  written none o = o
  written (some r) o = some (set r (or_zero o))

  pub merge-IsDistinct :
      (rs : List R) (m : Stats) → IsDistinct key_of m → IsDistinct key_of (merge id set rs m)
  unfolding merge
  merge-IsDistinct [] m h = h
  merge-IsDistinct (r ∷ rs) m h = merge-IsDistinct rs _ (alter-IsDistinct (id r) (set r) m h)

  unnamed :
      (i : ℕ) (rs : List R) → All (λ r. (id r == i) ≡ false) rs → find (λ r. id r == i) rs ≡ none
  unfolding find
  unnamed i [] h = refl
  unnamed i (r ∷ rs) (e, h) = rw e (unnamed i rs h)

  pub look-merge :
      (i : ℕ) (rs : List R) (m : Stats)
      → IsDistinct id rs
      → look i (merge id set rs m) ≡ written (find (λ r. id r == i) rs) (look i m)
  unfolding merge find
  look-merge i [] m h = refl
  look-merge i (r ∷ rs) m (a, h) = elim (Bool-cases (id r == i)) [
    | inl e ↦
        let same : id r ≡ i = (==_iff (id r) i).0 e in
        let other = unnamed i rs (subst (λ k. All (λ y. (id y == k) ≡ false) rs) same a) in
        rw e (
          look-merge i rs (alter (id r) (set r) m) h
          ∙ ap (λ o. written o (look i (alter (id r) (set r) m))) other
          ∙ look-alter i (id r) (set r) m
          ∙ rw e refl)
    | inr e ↦ rw e (
        look-merge i rs (alter (id r) (set r) m) h
        ∙ ap (written (find (λ x. id x == i) rs)) (look-alter i (id r) (set r) m ∙ rw e refl))
  ]
