-- ===== src/Db/Batches/Laws.antt =====
-- A batch deletes the first selected rows and no others, where no id occurs twice.
use mathlib.Core.Path.{subst}
use ping.Prelude.{
  ℕ, zero, suc, ◌+◌, ◌-◌, ◌≡◌, refl, sym, ap, ◌∙◌, inl, inr, Bool, true, false, not, List, [], ◌∷◌,
  map, take, select, length, ◌==◌, ltb, All, All-take, All-select_of, Bool-cases, arith,
  if◌then◌else◌,
}
use ping.Db.Batches.{elem, chosen, without}

module _ {A : Type 0} where
  abbrev pub drop : ℕ → List A → List A
  drop zero xs = xs
  drop (suc n) [] = []
  drop (suc n) (x ∷ xs) = drop n xs

  pub length-drop : (n : ℕ) (xs : List A) → length (drop n xs) ≡ length xs - n
  length-drop zero xs = omega arith
  length-drop (suc n) [] = omega arith
  length-drop (suc n) (x ∷ xs) = omega (arith, length-drop n xs)

  pub select-cong :
      (p q : A → Bool) (xs : List A) → All (λ x. p x ≡ q x) xs → select p xs ≡ select q xs
  unfolding select
  select-cong p q [] h = refl
  select-cong p q (x ∷ xs) (e, h) = rw (e, select-cong p q xs h) refl

  pub select_whole : (p : A → Bool) (xs : List A) → All (λ x. p x ≡ true) xs → select p xs ≡ xs
  unfolding select
  select_whole p [] h = refl
  select_whole p (x ∷ xs) (e, h) = rw (e, select_whole p xs h) refl

  pub select_comm : (p q : A → Bool) (xs : List A) → select p (select q xs) ≡ select q (select p xs)
  unfolding select
  select_comm p q [] = refl
  select_comm p q (x ∷ xs) = ground (arith, select_comm p q xs)

  -- What a test keeps is kept by a weaker one.
  pub select_weaker :
      (p q : A → Bool) (xs : List A)
      → All (λ x. p x ≡ true → q x ≡ true) xs
      → select p (select q xs) ≡ select p xs
  unfolding select
  select_weaker p q [] h = refl
  select_weaker p q (x ∷ xs) (e, h) = elim (Bool-cases (p x)) [
    | inl a ↦ rw (e a) (rw a (ap (λ r. x ∷ r) (select_weaker p q xs h)))
    | inr a ↦ elim (Bool-cases (q x)) [
      | inl b ↦ rw b (rw a (select_weaker p q xs h))
      | inr b ↦ rw (b, a) (select_weaker p q xs h)
    ]
  ]

  select-hit :
      (p : A → Bool) (x : A) (xs : List A) → p x ≡ true → select p (x ∷ xs) ≡ x ∷ select p xs
  unfolding select
  select-hit p x xs e = rw e refl

  select-miss : (p : A → Bool) (x : A) (xs : List A) → p x ≡ false → select p (x ∷ xs) ≡ select p xs
  unfolding select
  select-miss p x xs e = rw e refl

  pub length-select_split :
      (p : A → Bool) (xs : List A)
      → length xs ≡ length (select p xs) + length (select (λ x. not (p x)) xs)
  unfolding select
  length-select_split p [] = omega arith
  length-select_split p (x ∷ xs) = ground (arith, length-select_split p xs)

  -- Nothing is left of the rows that pass a test: the others are the table.
  pub select_rest :
      (p : A → Bool) (xs : List A) → length (select p xs) ≡ 0 → select (λ x. not (p x)) xs ≡ xs
  unfolding select
  select_rest p [] h = refl
  select_rest p (x ∷ xs) h = elim (Bool-cases (p x)) [
    | inl e ↦ absurd (omega (arith, rw e at h))
    | inr e ↦ rw e (ap (λ r. x ∷ r) (select_rest p xs (rw e at h)))
  ]

module _ {A : Type 0} (id : A → ℕ) where
  abbrev pub Apart : A → A → Type 0
  Apart x y = (id y == id x) ≡ false

  -- No id occurs twice.
  abbrev pub IsDistinct : List A → Type 0
  IsDistinct [] = Unit
  IsDistinct (x ∷ xs) = All (Apart x) xs × IsDistinct xs

  pub IsDistinct-select : (p : A → Bool) (xs : List A) → IsDistinct xs → IsDistinct (select p xs)
  unfolding select
  IsDistinct-select p [] h = tt
  IsDistinct-select p (x ∷ xs) (a, h) = elim (Bool-cases (p x)) [
    | inl e ↦ rw e (All-select_of (Apart x) p xs a, IsDistinct-select p xs h)
    | inr e ↦ rw e (IsDistinct-select p xs h)
  ]

  elem_apart :
      (i : ℕ) (xs : List A) → All (λ y. (id y == i) ≡ false) xs → elem i (map id xs) ≡ false
  elem_apart i [] h = refl
  elem_apart i (x ∷ xs) (e, h) = ground (arith, elem_apart i xs h)

  skip_head :
      (i : ℕ) (is : List ℕ) (xs : List A)
      → All (λ y. (id y == i) ≡ false) xs
      → All (λ y. not (elem (id y) (i ∷ is)) ≡ not (elem (id y) is)) xs
  skip_head i is [] h = tt
  skip_head i is (x ∷ xs) (e, h) = (rw e refl, skip_head i is xs h)

  -- The first rows of the selected ones go.
  without_first :
      (n : ℕ) (xs : List A) → IsDistinct xs → without id (map id (take n xs)) xs ≡ drop n xs
  unfolding select
  without_first zero xs h = select_whole _ xs (trivial xs)
    where
      trivial : (ys : List A) → All (λ y. not (elem (id y) []) ≡ true) ys
      trivial [] = tt
      trivial (y ∷ ys) = (refl, trivial ys)
  without_first (suc n) [] h = refl
  without_first (suc n) (x ∷ xs) (a, h) =
      let q : (id x == id x) ≡ true = ground arith in
      rw q (select-cong _ _ xs (skip_head (id x) (map id (take n xs)) xs a) ∙ without_first n xs h)

  -- The rows that a test does not select have none of these ids.
  abbrev Spares : (A → Bool) → List ℕ → List A → Type 0
  Spares p is = All (λ x. not (p x) ≡ true → not (elem (id x) is) ≡ true)

  past_head :
      (p : A → Bool) (i : ℕ) (is : List ℕ) (xs : List A)
      → All (λ y. (id y == i) ≡ false) xs
      → Spares p is xs
      → Spares p (i ∷ is) xs
  past_head p i is [] a h = tt
  past_head p i is (x ∷ xs) (e, a) (k, h) = (λ q. rw e (k q), past_head p i is xs a h)

  -- No other row has the id of a chosen one.
  spared : (p : A → Bool) (n : ℕ) (xs : List A) → IsDistinct xs → Spares p (chosen id p n xs) xs
  spared p zero [] h = tt
  spared p zero (x ∷ xs) (a, h) = (λ e. refl, spared p zero xs h)
  spared p (suc n) [] h = tt
  spared p (suc n) (x ∷ xs) (a, h) = elim (Bool-cases (p x)) [
    | inl e ↦
        subst (λ is. Spares p is (x ∷ xs))
          (sym (ap (λ ys. map id (take (suc n) ys)) (select-hit p x xs e)))
          (
            λ q. absurd (ground (arith, e)),
            past_head p (id x) (chosen id p n xs) xs a (spared p n xs h),
          )
    | inr e ↦
        subst (λ is. Spares p is (x ∷ xs))
          (sym (ap (λ ys. map id (take (suc n) ys)) (select-miss p x xs e)))
          (
            λ _. ap not (
                elem_apart (id x) (take (suc n) (select p xs))
                  (All-take (Apart x) (suc n) (select p xs) (All-select_of (Apart x) p xs a))),
            spared p (suc n) xs h,
          )
  ]

  module _ (p : A → Bool) (n : ℕ) (xs : List A) (h : IsDistinct xs) where
    pub batch_kept :
        select (λ x. not (p x)) (without id (chosen id p n xs) xs) ≡ select (λ x. not (p x)) xs
    batch_kept = select_weaker _ _ xs (spared p n xs h)

    pub batch_left : select p (without id (chosen id p n xs) xs) ≡ drop n (select p xs)
    batch_left = select_comm p _ xs ∙ without_first n (select p xs) (IsDistinct-select p xs h)

    pub batch_count :
        length xs - length (without id (chosen id p n xs) xs)
        ≡ (if ltb n (length (select p xs)) then n else length (select p xs))
    batch_count =
        let rest = without id (chosen id p n xs) xs in
        ground (
          arith,
          length-select_split p xs,
          length-select_split p rest,
          ap length batch_kept,
          ap length batch_left,
          length-drop n (select p xs),
        )
