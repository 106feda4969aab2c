-- ===== src/Db/Stats/Groups.antt =====
-- GROUP BY: a row for each key, and the look-up of a key among them.
use ping.Prelude.{
  ℕ, ◌≡◌, refl, sym, ap, ◌∙◌, inl, inr, Bool, true, false, not, none, some, List, [], ◌∷◌, map,
  select, find, is_some, ◌==◌, ==_iff, All, Bool-cases, if◌then◌else◌, arith,
}
use ping.Db.Stats.{group_keys}
use ping.Db.Batches.Laws.{IsDistinct, IsDistinct-select, Apart}

abbrev pub this : ℕ → ℕ
this i = i

module _ {A : Type 0} (key : A → ℕ) where
  abbrev pub has_key : ℕ → List A → Bool
  has_key i xs = is_some (find (λ x. key x == i) xs)

  others-Apart : (i : ℕ) (js : List ℕ) → All (Apart this i) (select (λ j. not (j == i)) js)
  unfolding select
  others-Apart i [] = tt
  others-Apart i (j ∷ js) = elim (Bool-cases (j == i)) [
    | inl e ↦ rw e (others-Apart i js)
    | inr e ↦ rw e (e, others-Apart i js)
  ]

  pub group_keys-IsDistinct : (xs : List A) → IsDistinct this (group_keys key xs)
  unfolding group_keys
  group_keys-IsDistinct [] = tt
  group_keys-IsDistinct (x ∷ xs) = (
    others-Apart (key x) (group_keys key xs),
    IsDistinct-select this _ (group_keys key xs) (group_keys-IsDistinct xs),
  )

abbrev pub has : ℕ → List ℕ → Bool
has i js = is_some (find (λ j. j == i) js)

has-select :
    (i k : ℕ) (js : List ℕ) → (k == i) ≡ false → has i (select (λ j. not (j == k)) js) ≡ has i js
unfolding find select
has-select i k [] h = refl
has-select i k (j ∷ js) h = elim (Bool-cases (j == k)) [
  | inl e ↦ let q : (j == i) ≡ false = ground arith in rw (e, q) (has-select i k js h)
  | inr e ↦ elim (Bool-cases (j == i)) [
    | inl q ↦ rw (e, q) refl
    | inr q ↦ rw (e, q) (has-select i k js h)
  ]
]

pub has-group_keys :
    {A : Type 0} (key : A → ℕ) (i : ℕ) (xs : List A) → has i (group_keys key xs) ≡ has_key key i xs
unfolding group_keys find
has-group_keys key i [] = refl
has-group_keys key i (x ∷ xs) = elim (Bool-cases (key x == i)) [
  | inl e ↦ rw e refl
  | inr e ↦ rw e (has-select i (key x) (group_keys key xs) e ∙ has-group_keys key i xs)
]

none_left : {c : Bool} → c ≡ false → (b : Bool) → (if b then c else false) ≡ false
none_left e true = e
none_left e false = refl

-- A selection of keys has a key that passes the test.
pub has-select_of :
    (p : ℕ → Bool) (i : ℕ) (js : List ℕ) → has i (select p js) ≡ (if has i js then p i else false)
unfolding find select
has-select_of p i [] = refl
has-select_of p i (j ∷ js) = elim (Bool-cases (j == i)) [
  | inl q ↦
      let same : p j ≡ p i = ap p ((==_iff j i).0 q) in
      elim (Bool-cases (p i)) [
        | inl e ↦ rw (same ∙ e, q) (sym e)
        | inr e ↦ rw (same ∙ e, q) (has-select_of p i js ∙ none_left e (has i js) ∙ sym e)
      ]
  | inr q ↦ elim (Bool-cases (p j)) [
    | inl e ↦ rw (e, q) (has-select_of p i js)
    | inr e ↦ rw (e, q) (has-select_of p i js)
  ]
]

module _ {R : Type 0} (id : R → ℕ) (f : ℕ → R) (id-f : (j : ℕ) → id (f j) ≡ j) where
  pub find-map :
      (i : ℕ) (js : List ℕ)
      → find (λ r. id r == i) (map f js) ≡ (if has i js then some (f i) else none)
  unfolding find
  find-map i [] = refl
  find-map i (j ∷ js) = elim (Bool-cases (j == i)) [
    | inl q ↦ rw (id-f j, q) (ap (λ k. some (f k)) ((==_iff j i).0 q))
    | inr q ↦ rw (id-f j, q) (find-map i js)
  ]

  Apart-map : (j : ℕ) (js : List ℕ) → All (Apart this j) js → All (Apart id (f j)) (map f js)
  Apart-map j [] h = tt
  Apart-map j (k ∷ js) (p, h) = (rw (id-f j, id-f k) p, Apart-map j js h)

  pub IsDistinct-map : (js : List ℕ) → IsDistinct this js → IsDistinct id (map f js)
  IsDistinct-map [] h = tt
  IsDistinct-map (j ∷ js) (a, h) = (Apart-map j js a, IsDistinct-map js h)
