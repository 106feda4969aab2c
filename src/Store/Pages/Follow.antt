-- ===== src/Store/Pages/Follow.antt =====
-- A reader who follows the cursors.
use mathlib.Core.List.{append-nil}
use ping.Prelude.{
  ℕ, zero, suc, ◌<◌, ◌≡◌, refl, ap, ◌∙◌, sym, ◌&&◌, inl, inr, String, Bool, true, false, Option,
  none, some, List, [], ◌∷◌, ◌++◌, length, take, select, All, All-select, All-select_of, ◌==◌,
  ==_iff, Bool-cases, arith, if◌then◌else◌,
}
use ping.Schedule.Text.{is_empty}
use ping.Db.{Db, Event}
use ping.Store.Promise.{IsOrdered}
use ping.Store.Checkin.{text_or_null}
use ping.Store.Pages.{
  is_below, is_wanted, reverse, by_id_desc, list_events_by_monitor_page, EventPage, last_id,
  to_event_page, decode_id_cursor, page_at, list_events_by_monitor, is_users, list_events_by_user,
  list_events_by_user_page,
}
use ping.Store.Pages.Order.{
  IsFalling, sort-IsOrdered, IsOrdered-select, reverse-IsFalling, select-reverse, select-both,
  select-within, drop, take-drop, below_last, last_under,
}

-- The wanted events, newest first.
abbrev pub feed : (Event → Bool) → Db → List Event
feed wanted db = reverse (select wanted db.events)

page_lem :
    (wanted : Event → Bool) (c : Option ℕ) (limit : ℕ) (db : Db)
    → IsOrdered db.events
    → take limit (by_id_desc (select (λ e. wanted e && is_below c e) db.events))
      ≡ take limit (select (is_below c) (feed wanted db))
page_lem wanted c limit db o = ap (take limit) (
    ap reverse (
      sort-IsOrdered _ (IsOrdered-select (λ e. wanted e && is_below c e) db.events o)
      ∙ select-both wanted (is_below c) db.events)
    ∙ sym (select-reverse (is_below c) (select wanted db.events)))

IsFalling-select : (p : Event → Bool) (es : List Event) → IsFalling es → IsFalling (select p es)
unfolding select
IsFalling-select p [] h = tt
IsFalling-select p (e ∷ es) (a, h) = elim (Bool-cases (p e)) [
  | inl q ↦ rw q (All-select_of (λ f. f.id < e.id) p es a, IsFalling-select p es h)
  | inr q ↦ rw q (IsFalling-select p es h)
]

All-under :
    (c : ℕ) (es : List Event) → All (λ e. is_below (some c) e ≡ true) es → All (λ e. e.id < c) es
All-under c [] h = tt
All-under c (e ∷ es) (p, h) = (ground arith, All-under c es h)

-- What lies below the last row of a full page lies below the page's cursor too.
within_cursor :
    (c : Option ℕ) (k : ℕ) (es : List Event)
    → length (take (suc k) (select (is_below c) es)) ≡ suc k
    → (e : Event) → is_below (some (last_id (take (suc k) (select (is_below c) es)))) e ≡ true
    → is_below c e ≡ true
within_cursor none k es n e h = refl
within_cursor (some c) k es n e h = ground (
  arith,
  last_under k c (select (is_below (some c)) es) (All-under c _ (All-select (is_below (some c)) es))
      n,
)

-- What a full page leaves is what lies below its last row.
left_over :
    (c : Option ℕ) (k : ℕ) (es : List Event)
    → IsFalling es
    → length (take (suc k) (select (is_below c) es)) ≡ suc k
    → select (is_below (some (last_id (take (suc k) (select (is_below c) es))))) es
      ≡ drop (suc k) (select (is_below c) es)
left_over c k es h n =
    sym (select-within (is_below c) _ es (within_cursor c k es n))
    ∙ below_last k (select (is_below c) es) (IsFalling-select (is_below c) es h) n

take_whole : (k : ℕ) (es : List Event) → (length (take k es) == k) ≡ false → take k es ≡ es
take_whole zero es h = absurd (ground arith)
take_whole (suc k) [] h = refl
take_whole (suc k) (e ∷ es) h =
    let q : (length (take k es) == k) ≡ false = ground arith in
    ap (λ xs. e ∷ xs) (take_whole k es q)

length-drop :
    (k : ℕ) (es : List Event)
    → length (take (suc k) es) ≡ suc k
    → length (drop (suc k) es) < length es
length-drop k [] h = absurd (omega (arith, h))
length-drop zero (e ∷ es) h = omega arith
length-drop (suc k) (e ∷ es) h = omega (arith, length-drop k es (omega (arith, h)))

-- A reader who starts at a cursor and stops at the first page without a next one.
abbrev rest_of : Option EventPage → (String → List Event) → List Event
rest_of none next = []
rest_of (some page) next =
    page.events ++ (if is_empty page.next_cursor then [] else next page.next_cursor)

pub follow : ℕ → (String → Option EventPage) → String → List Event
follow zero fetch cursor = []
follow (suc fuel) fetch cursor = let next = follow fuel fetch in rest_of (fetch cursor) next

all_passed : (es : List Event) → select (is_below none) es ≡ es
unfolding select
all_passed [] = refl
all_passed (e ∷ es) = ap (λ xs. e ∷ xs) (all_passed es)

module _ (encode : ℕ → String) (decode : String → Option ℕ)
    (roundtrip : (n : ℕ) → decode (encode n) ≡ some n)
    (named : (n : ℕ) → is_empty (encode n) ≡ false) where
  encoded : (n : ℕ) → decode_id_cursor encode decode (encode n) ≡ some (some n)
  encoded n = rw (named n, roundtrip n) refl

  page_step :
      (k : ℕ) (es : List Event) (next : String → List Event)
      → ((length (take (suc k) es) == suc k) ≡ true
          → next (encode (last_id (take (suc k) es))) ≡ drop (suc k) es)
      → rest_of (some (to_event_page encode decode (take (suc k) es) (suc k))) next ≡ es
  page_step k es next full = elim (Bool-cases (length (take (suc k) es) == suc k)) [
    | inl e ↦
        rw (e, named (last_id (take (suc k) es)))
          (ap (λ xs. take (suc k) es ++ xs) (full e) ∙ take-drop (suc k) es)
    | inr e ↦ rw e (append-nil _ ∙ take_whole (suc k) es e)
  ]

  -- The pages of a list: each cursor answers the rows below it.
  abbrev IsPaged : ℕ → List Event → (String → Option EventPage) → Type 0
  IsPaged limit es fetch =
      (c : Option ℕ) (cursor : String)
      → decode_id_cursor encode decode cursor ≡ some c
      → fetch cursor
        ≡ some (to_event_page encode decode (take limit (select (is_below c) es)) limit)

  follow_from :
      (fuel k : ℕ) (es : List Event) (fetch : String → Option EventPage)
      → IsFalling es
      → IsPaged (suc k) es fetch
      → (c : Option ℕ) (cursor : String) → decode_id_cursor encode decode cursor ≡ some c
      → length (select (is_below c) es) < fuel
      → follow fuel fetch cursor ≡ select (is_below c) es
  unfolding follow
  follow_from zero k es fetch falls paged c cursor d l = absurd (omega (arith, l))
  follow_from (suc fuel) k es fetch falls paged c cursor d l =
      ap (λ x. rest_of x (follow fuel fetch)) (paged c cursor d)
      ∙ page_step k (select (is_below c) es) (follow fuel fetch) (λ e.
        let n = (==_iff _ _).0 e in
        let less = length-drop k (select (is_below c) es) n in
        let left = left_over c k es falls n in
        follow_from fuel k es fetch falls paged
          (some (last_id (take (suc k) (select (is_below c) es))))
          (encode (last_id (take (suc k) (select (is_below c) es)))) (encoded _)
          (omega (arith, ap length left, less, l))
        ∙ left)

  follow_pages :
      (fuel k : ℕ) (wanted : Event → Bool) (db : Db) (fetch : String → Option EventPage)
      → IsOrdered db.events
      → IsPaged (suc k) (feed wanted db) fetch
      → length (feed wanted db) < fuel
      → follow fuel fetch "" ≡ feed wanted db
  follow_pages fuel k wanted db fetch o paged l =
      follow_from fuel k (feed wanted db) fetch
        (reverse-IsFalling _ (IsOrdered-select wanted db.events o)) paged none "" refl
        (omega (arith, ap length (all_passed (feed wanted db)), l))
      ∙ all_passed (feed wanted db)

  -- Where cursors decode to what they encode and are not empty, and the ids of the timeline grow,
  -- a reader who starts at the first page and follows the cursors reads every event of the
  -- monitor and type once, newest first, for any page size of 1 or more; as many pages as there
  -- are such events, and one more, are enough.
  pub follow_all :
      (fuel k i : ℕ) (event_type : String) (db : Db)
      → IsOrdered db.events
      → length (feed (is_wanted i (text_or_null event_type)) db) < fuel
      → follow fuel
          (λ cursor. list_events_by_monitor encode decode i event_type cursor (suc k) db)
          ""
        ≡ feed (is_wanted i (text_or_null event_type)) db
  unfolding list_events_by_monitor list_events_by_monitor_page
  follow_all fuel k i event_type db o =
      let wanted = is_wanted i (text_or_null event_type) in
      follow_pages fuel k wanted db _ o (λ c cursor d.
        ap
          (λ x.
            page_at encode decode x (suc k)
              (λ c. list_events_by_monitor_page i (text_or_null event_type) c (suc k) db))
          d
        ∙ ap (λ rows. some (to_event_page encode decode rows (suc k)))
            (page_lem wanted c (suc k) db o))

  -- Where cursors decode to what they encode and are not empty, and the ids of the timeline grow,
  -- a reader who follows the cursors of a user's timeline reads every event of the user's
  -- monitors, or of one of them, and of the type once, newest first, for any page size of 1 or
  -- more; as many pages as there are such events, and one more, are enough.
  pub follow_user :
      (fuel k user : ℕ) (i : Option ℕ) (event_type : String) (db : Db)
      → IsOrdered db.events
      → length (feed (is_users user i (text_or_null event_type) db) db) < fuel
      → follow fuel
          (λ cursor. list_events_by_user encode decode user i event_type cursor (suc k) db)
          ""
        ≡ feed (is_users user i (text_or_null event_type) db) db
  unfolding list_events_by_user list_events_by_user_page
  follow_user fuel k user i event_type db o =
      let wanted = is_users user i (text_or_null event_type) db in
      follow_pages fuel k wanted db _ o (λ c cursor d.
        ap
          (λ x.
            page_at encode decode x (suc k)
              (λ c. list_events_by_user_page user i (text_or_null event_type) c (suc k) db))
          d
        ∙ ap (λ rows. some (to_event_page encode decode rows (suc k)))
            (page_lem wanted c (suc k) db o))
