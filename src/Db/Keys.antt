-- ===== src/Db/Keys.antt =====
-- The primary key of the table of monitors: rows with distinct ids, and look-ups among them.
use ping.Prelude.{
  ℕ, zero, suc, ◌≡◌, refl, Bool, false, some, List, [], ◌∷◌, inl, inr, Bool-cases, if◌then◌else◌,
  ◌==◌, ==_iff, leb, find, select, update_where, take, map_option, All, arith, All-select_of,
  All-take,
}
use ping.Db.{Monitor, has_id}
use ping.Db.Sort.{insert_by, sort_by, All-insert_by, All-sort_by}

abbrev pub Differs : Monitor → Monitor → Type 0
Differs m x = (m.id == x.id) ≡ false

-- No id occurs twice.
abbrev pub IsKeyed : List Monitor → Type 0
IsKeyed [] = Unit
IsKeyed (m ∷ ms) = All (Differs m) ms × IsKeyed ms

pub IsKeyed-select : (p : Monitor → Bool) (ms : List Monitor) → IsKeyed ms → IsKeyed (select p ms)
unfolding select
IsKeyed-select p [] h = tt
IsKeyed-select p (m ∷ ms) (a, h) = elim (Bool-cases (p m)) [
  | inl e ↦ rw e (All-select_of (Differs m) p ms a, IsKeyed-select p ms h)
  | inr e ↦ rw e (IsKeyed-select p ms h)
]

pub IsKeyed-take : (n : ℕ) (ms : List Monitor) → IsKeyed ms → IsKeyed (take n ms)
IsKeyed-take zero ms h = tt
IsKeyed-take (suc n) [] h = tt
IsKeyed-take (suc n) (m ∷ ms) (a, h) = (All-take (Differs m) n ms a, IsKeyed-take n ms h)

Differs-sym : (m x : Monitor) → Differs m x → Differs x m
Differs-sym m x h = ground arith

IsKeyed-insert :
    (key : Monitor → ℕ) (m : Monitor) (ms : List Monitor)
    → All (Differs m) ms
    → IsKeyed ms
    → IsKeyed (insert_by key m ms)
unfolding insert_by
IsKeyed-insert key m [] a h = (tt, tt)
IsKeyed-insert key m (x ∷ ms) (b, a) (c, h) = elim (Bool-cases (leb (key m) (key x))) [
  | inl e ↦ rw e ((b, a), (c, h))
  | inr e ↦
      rw e (All-insert_by (Differs x) key m ms (Differs-sym m x b) c, IsKeyed-insert key m ms a h)
]

pub IsKeyed-sort : (key : Monitor → ℕ) (ms : List Monitor) → IsKeyed ms → IsKeyed (sort_by key ms)
unfolding sort_by
IsKeyed-sort key [] h = tt
IsKeyed-sort key (m ∷ ms) (a, h) =
    IsKeyed-insert key m (sort_by key ms) (All-sort_by (Differs m) key ms a) (IsKeyed-sort key ms h)

-- A row of these tables is the one that a look-up by its id finds.
abbrev pub IsCurrent : List Monitor → Monitor → Type 0
IsCurrent table m = find (has_id m.id) table ≡ some m

past_head :
    (m : Monitor) (table ms : List Monitor)
    → All (Differs m) ms
    → All (IsCurrent table) ms
    → All (IsCurrent (m ∷ table)) ms
unfolding find
past_head m table [] a h = tt
past_head m table (x ∷ ms) (d, a) (c, h) = (rw d c, past_head m table ms a h)

pub IsKeyed-IsCurrent : (ms : List Monitor) → IsKeyed ms → All (IsCurrent ms) ms
unfolding find
IsKeyed-IsCurrent [] h = tt
IsKeyed-IsCurrent (m ∷ ms) (a, h) =
    (rw ((==_iff m.id m.id).1 refl), past_head m ms ms a (IsKeyed-IsCurrent ms h))

-- An update by id changes the row of that id, and no other.
pub find-update :
    (i j : ℕ) (f : Monitor → Monitor)
    → ((m : Monitor) → (f m).id ≡ m.id)
    → (ms : List Monitor)
    → find (has_id j) (update_where (has_id i) f ms)
      ≡ (if i == j then map_option f (find (has_id j) ms) else find (has_id j) ms)
unfolding find update_where
find-update i j f keep [] = elim (Bool-cases (i == j)) [ inl e ↦ rw e | inr e ↦ rw e ]
find-update i j f keep (m ∷ ms) = ground (arith, keep m, find-update i j f keep ms)
