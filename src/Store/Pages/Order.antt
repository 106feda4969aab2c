-- ===== src/Store/Pages/Order.antt =====
-- The order of the timeline: newest first, and what lies below a row of it.
use mathlib.Core.List.{append-nil}
use ping.Prelude.{
  ℕ, zero, suc, ◌<◌, ◌≡◌, refl, ap, ◌∙◌, ◌&&◌, inl, inr, Bool, true, false, some, List, [], ◌∷◌,
  ◌++◌, length, take, select, select-append, All, All-append, All-select_of, ltb, Bool-cases, arith,
}
use ping.Db.{Event}
use ping.Db.Sort.{insert_by, sort_by}
use ping.Store.Promise.{IsOrdered}
use ping.Store.Pages.{reverse, is_below, last_id}

abbrev pub IsFalling : List Event → Type 0
IsFalling [] = Unit
IsFalling (e ∷ es) = All (λ f. f.id < e.id) es × IsFalling es

insert_first :
    (e : Event) (es : List Event) → All (λ f. e.id < f.id) es → insert_by (λ f. f.id) e es ≡ e ∷ es
unfolding insert_by
insert_first e [] h = refl
insert_first e (f ∷ es) (p, h) = ground arith

pub sort-IsOrdered : (es : List Event) → IsOrdered es → sort_by (λ e. e.id) es ≡ es
unfolding sort_by
sort-IsOrdered [] h = refl
sort-IsOrdered (e ∷ es) (a, h) =
    ap (insert_by (λ f. f.id) e) (sort-IsOrdered es h) ∙ insert_first e es a

pub IsOrdered-select : (p : Event → Bool) (es : List Event) → IsOrdered es → IsOrdered (select p es)
unfolding select
IsOrdered-select p [] h = tt
IsOrdered-select p (e ∷ es) (a, h) = elim (Bool-cases (p e)) [
  | inl q ↦ rw q (All-select_of (λ f. e.id < f.id) p es a, IsOrdered-select p es h)
  | inr q ↦ rw q (IsOrdered-select p es h)
]

All-reverse : (P : Event → Type 0) (es : List Event) → All P es → All P (reverse es)
All-reverse P [] h = tt
All-reverse P (e ∷ es) (p, h) = All-append P (reverse es) (e ∷ []) (All-reverse P es h) (p, tt)

IsFalling-snoc :
    (es : List Event) (e : Event)
    → IsFalling es
    → All (λ f. e.id < f.id) es
    → IsFalling (es ++ e ∷ [])
IsFalling-snoc [] e h a = (tt, tt)
IsFalling-snoc (f ∷ es) e (b, h) (p, a) =
    (All-append (λ g. g.id < f.id) es (e ∷ []) b (p, tt), IsFalling-snoc es e h a)

pub reverse-IsFalling : (es : List Event) → IsOrdered es → IsFalling (reverse es)
reverse-IsFalling [] h = tt
reverse-IsFalling (e ∷ es) (a, h) =
    IsFalling-snoc (reverse es) e (reverse-IsFalling es h) (All-reverse (λ f. e.id < f.id) es a)

pub select-reverse :
    (p : Event → Bool) (es : List Event) → select p (reverse es) ≡ reverse (select p es)
unfolding select
select-reverse p [] = refl
select-reverse p (e ∷ es) = elim (Bool-cases (p e)) [
  | inl q ↦
      rw (select-append p (reverse es) (e ∷ []))
        (rw q (ap (λ xs. xs ++ e ∷ []) (select-reverse p es)))
  | inr q ↦ rw (select-append p (reverse es) (e ∷ [])) (rw q (append-nil _ ∙ select-reverse p es))
]

pub select-both :
    (p q : Event → Bool) (es : List Event) → select (λ e. p e && q e) es ≡ select q (select p es)
unfolding select
select-both p q [] = refl
select-both p q (e ∷ es) = elim (Bool-cases (p e)) [
  | inl h ↦ elim (Bool-cases (q e)) [
    | inl k ↦ rw (h, k) (ap (λ xs. e ∷ xs) (select-both p q es))
    | inr k ↦ rw (h, k) (select-both p q es)
  ]
  | inr h ↦ rw h (select-both p q es)
]

-- A test that implies another one selects the same after it.
pub select-within :
    (p q : Event → Bool) (es : List Event)
    → ((e : Event) → q e ≡ true → p e ≡ true)
    → select q (select p es) ≡ select q es
unfolding select
select-within p q [] h = refl
select-within p q (e ∷ es) h = elim (Bool-cases (q e)) [
  | inl k ↦ rw (h e k, k) (ap (λ xs. e ∷ xs) (select-within p q es h))
  | inr k ↦ elim (Bool-cases (p e)) [
    | inl r ↦ rw (r, k) (select-within p q es h)
    | inr r ↦ rw (r, k) (select-within p q es h)
  ]
]

abbrev pub drop : ℕ → List Event → List Event
drop zero es = es
drop (suc n) [] = []
drop (suc n) (e ∷ es) = drop n es

pub take-drop : (n : ℕ) (es : List Event) → take n es ++ drop n es ≡ es
take-drop zero es = refl
take-drop (suc n) [] = refl
take-drop (suc n) (e ∷ es) = ap (λ xs. e ∷ xs) (take-drop n es)

All-below : (c : ℕ) (es : List Event) → All (λ f. f.id < c) es → select (is_below (some c)) es ≡ es
unfolding select
All-below c [] h = refl
All-below c (e ∷ es) (p, h) =
    let q : ltb e.id c ≡ true = ground arith in rw q (ap (λ xs. e ∷ xs) (All-below c es h))

pub last_under :
    (k c : ℕ) (es : List Event)
    → All (λ f. f.id < c) es
    → length (take (suc k) es) ≡ suc k
    → last_id (take (suc k) es) < c
last_under k c [] h n = absurd (omega (arith, n))
last_under zero c (e ∷ es) (p, h) n = p
last_under (suc k) c (e ∷ []) (p, h) n = absurd (omega (arith, n))
last_under (suc k) c (e ∷ f ∷ es) (p, h) n = last_under k c (f ∷ es) h (omega (arith, n))

-- Below the last row of a full page lies what follows the page.
pub below_last :
    (k : ℕ) (es : List Event)
    → IsFalling es
    → length (take (suc k) es) ≡ suc k
    → select (is_below (some (last_id (take (suc k) es)))) es ≡ drop (suc k) es
unfolding select
below_last k [] h n = absurd (omega (arith, n))
below_last zero (e ∷ es) (a, h) n =
    let q : ltb e.id e.id ≡ false = ground arith in rw q (All-below e.id es a)
below_last (suc k) (e ∷ []) h n = absurd (omega (arith, n))
below_last (suc k) (e ∷ f ∷ es) (a, h) n =
    let under = last_under k e.id (f ∷ es) a (omega (arith, n)) in
    let q : ltb e.id (last_id (take (suc k) (f ∷ es))) ≡ false = ground (arith, under) in
    rw q (below_last k (f ∷ es) h (omega (arith, n)))
