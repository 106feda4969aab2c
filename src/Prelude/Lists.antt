-- ===== src/Prelude/Lists.antt =====
-- Lists as the tables of a database: searches, updates in place, and what they keep.
use Prim.Native.Nat.{ℕ, zero, suc, ◌≤◌}
use native.Mathlib.Omega.{arith}
use mathlib.Core.Path.{◌≡◌, refl, ap, subst, ◌∙◌}
use mathlib.Core.Logic.{inl, inr}
use mathlib.Core.Bool.{Bool, true, false}
use mathlib.Core.Option.{Option, none, some, some-injective}
use mathlib.Core.List.{List, [], ◌∷◌, ◌++◌, map, append-nil}
use ping.Prelude.Tests.{if◌then◌else◌, Bool-cases}

module _ {ℓ} {A : Type ℓ} where
  abbrev pub length : List A → ℕ
  length [] = 0
  length (x ∷ xs) = suc (length xs)

  pub length-snoc : (xs : List A) (x : A) → length (xs ++ x ∷ []) ≡ suc (length xs)
  length-snoc [] x = refl
  length-snoc (y ∷ xs) x = ap suc (length-snoc xs x)

  abbrev pub take : ℕ → List A → List A
  take zero xs = []
  take (suc n) [] = []
  take (suc n) (x ∷ xs) = x ∷ take n xs

  pub length-take_le : (n : ℕ) (xs : List A) → length (take n xs) ≤ n
  length-take_le zero xs = omega arith
  length-take_le (suc n) [] = omega arith
  length-take_le (suc n) (x ∷ xs) = omega (arith, length-take_le n xs)

  -- The rows that pass a test, in order.
  unfoldable pub select : (A → Bool) → List A → List A
  select p [] = []
  select p (x ∷ xs) = if p x then x ∷ select p xs else select p xs

  -- The first row that passes a test.
  unfoldable pub find : (A → Bool) → List A → Option A
  find p [] = none
  find p (x ∷ xs) = if p x then some x else find p xs

  -- A change of each row that passes a test.
  unfoldable pub update_where : (A → Bool) → (A → A) → List A → List A
  update_where p f [] = []
  update_where p f (x ∷ xs) = (if p x then f x else x) ∷ update_where p f xs

  pub select-append :
      (p : A → Bool) (xs ys : List A) → select p (xs ++ ys) ≡ select p xs ++ select p ys
  unfolding select
  select-append p [] ys = refl
  select-append p (x ∷ xs) ys = elim (Bool-cases (p x)) [
    | inl e ↦ rw (e, select-append p xs ys)
    | inr e ↦ rw (e, select-append p xs ys)
  ]

  -- A row at the end is kept or dropped by its own test.
  pub select-snoc_keep :
      (p : A → Bool) (xs : List A) (x : A)
      → p x ≡ true
      → select p (xs ++ x ∷ []) ≡ select p xs ++ x ∷ []
  unfolding select
  select-snoc_keep p xs x e = rw (select-append p xs (x ∷ [])) (rw e refl)

  pub select-snoc_drop :
      (p : A → Bool) (xs : List A) (x : A) → p x ≡ false → select p (xs ++ x ∷ []) ≡ select p xs
  unfolding select
  select-snoc_drop p xs x e = rw (select-append p xs (x ∷ [])) (rw e (append-nil _))

  abbrev pub is_some : Option A → Bool
  is_some none = false
  is_some (some a) = true

  abbrev pub map_option {κ} : {B : Type κ} → (A → B) → Option A → Option B
  map_option f none = none
  map_option f (some a) = some (f a)

  abbrev pub is_none : Option A → Bool
  is_none none = true
  is_none (some a) = false

module _ {ℓ κ} {A : Type ℓ} where
  abbrev pub All : (A → Type κ) → List A → Type κ
  All P [] = Unit
  All P (x ∷ xs) = P x × All P xs

  pub All-append : (P : A → Type κ) (xs ys : List A) → All P xs → All P ys → All P (xs ++ ys)
  All-append P [] ys h k = k
  All-append P (x ∷ xs) ys (p, h) k = (p, All-append P xs ys h k)

  -- An update keeps what it keeps of each row.
  pub All-update_where :
      (P : A → Type κ) (p : A → Bool) (f : A → A)
      → ((x : A) → P x → P (f x))
      → (xs : List A) → All P xs
      → All P (update_where p f xs)
  unfolding update_where
  All-update_where P p f keep [] h = tt
  All-update_where P p f keep (x ∷ xs) (px, h) = (
    elim (Bool-cases (p x)) [ inl e ↦ rw e (keep x px) | inr e ↦ rw e px ],
    All-update_where P p f keep xs h,
  )

  pub All-find :
      (P : A → Type κ) (p : A → Bool) (xs : List A) (x : A) → All P xs → find p xs ≡ some x → P x
  unfolding find
  All-find P p [] x h e = cc
  All-find P p (y ∷ xs) x (py, h) e = elim (Bool-cases (p y)) [
    | inl hit ↦ subst P (some-injective y x (rw hit at e)) py
    | inr miss ↦ All-find P p xs x h (rw miss at e)
  ]

module _ {ℓ κ} {A : Type ℓ} {B : Type κ} where
  -- A column that the change leaves alone is the same list of values.
  pub map-update_where :
      (g : A → B) (p : A → Bool) (f : A → A)
      → ((x : A) → g (f x) ≡ g x)
      → (xs : List A) → map g (update_where p f xs) ≡ map g xs
  unfolding update_where
  map-update_where g p f same [] = refl
  map-update_where g p f same (x ∷ xs) = elim (Bool-cases (p x)) [
    | inl e ↦ rw (e, same x, map-update_where g p f same xs)
    | inr e ↦ rw (e, map-update_where g p f same xs)
  ]

module _ {ℓ} {A : Type ℓ} where
  -- What is selected passes the test.
  pub All-select : (p : A → Bool) (xs : List A) → All (λ x. p x ≡ true) (select p xs)
  unfolding select
  All-select p [] = tt
  All-select p (x ∷ xs) = elim (Bool-cases (p x)) [
    | inl e ↦ rw e (e, All-select p xs)
    | inr e ↦ rw e (All-select p xs)
  ]

module _ {ℓ κ} {A : Type ℓ} (P : A → Type κ) where
  pub All-take : (n : ℕ) (xs : List A) → All P xs → All P (take n xs)
  All-take zero xs h = tt
  All-take (suc n) [] h = tt
  All-take (suc n) (x ∷ xs) (p, h) = (p, All-take n xs h)

  pub All-select_of : (q : A → Bool) (xs : List A) → All P xs → All P (select q xs)
  unfolding select
  All-select_of q [] h = tt
  All-select_of q (x ∷ xs) (p, h) = elim (Bool-cases (q x)) [
    | inl e ↦ rw e (p, All-select_of q xs h)
    | inr e ↦ rw e (All-select_of q xs h)
  ]

module _ {ℓ κ} {A : Type ℓ} {B : Type κ} where
  -- A change that keeps a test and a column keeps the column of the rows that pass the test.
  pub map-select_update :
      (col : A → B) (q p : A → Bool) (f : A → A)
      → ((x : A) → q (f x) ≡ q x)
      → ((x : A) → col (f x) ≡ col x)
      → (xs : List A) → map col (select q (update_where p f xs)) ≡ map col (select q xs)
  unfolding select update_where
  map-select_update col q p f e h [] = refl
  map-select_update col q p f e h (x ∷ xs) =
      ground (arith, e x, h x, map-select_update col q p f e h xs)

module _ {ℓ} {A : Type ℓ} where
  -- The row that a search finds after a change of the rows that pass it.
  pub find-update_where :
      (p : A → Bool) (f : A → A)
      → ((x : A) → p (f x) ≡ p x)
      → (xs : List A) → find p (update_where p f xs) ≡ map_option f (find p xs)
  unfolding find update_where
  find-update_where p f e [] = refl
  find-update_where p f e (x ∷ xs) = elim (Bool-cases (p x)) [
    | inl h ↦ rw h (rw (e x ∙ h) refl)
    | inr h ↦ rw h (rw h (find-update_where p f e xs))
  ]
