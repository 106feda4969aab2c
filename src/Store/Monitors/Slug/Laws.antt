-- ===== src/Store/Monitors/Slug/Laws.antt =====
-- No randomness is lost in a slug: the letters spell the bytes.
use mathlib.Core.Path.{subst}
use Prim.Native.Char.{Char, code}
use ping.Prelude.{
  ℕ, zero, suc, ◌+◌, ◌-◌, ◌*◌, ◌/◌, ◌%◌, ◌≤◌, ◌<◌, ◌≡◌, refl, sym, ap, ap₂, ◌∙◌, inl, inr, String,
  Bool, true, false, ◌&&◌, List, [], ◌∷◌, length, All, leb, ◌==◌, ==_iff, if◌then◌else◌, Bool-cases,
  arith,
}
use ping.Store.Monitors.Slug.{number_of, groups, letter_at, alphabet, spell, slug_of, slug_len}

-- The place of a letter in the alphabet.
abbrev index_of : Char → ℕ
index_of c = if leb 97 (code c) then code c - 97 else code c - 24

is_all_below : ℕ → (ℕ → Bool) → Bool
is_all_below zero p = true
is_all_below (suc n) p = p n && is_all_below n p

halves : (a b : Bool) → (a && b) ≡ true → (a ≡ true) × (b ≡ true)
halves true b h = (refl, h)
halves false b h = absurd (ground arith)

below_lem : (n : ℕ) (p : ℕ → Bool) (k : ℕ) → is_all_below n p ≡ true → k < n → p k ≡ true
unfolding is_all_below
below_lem zero p k h l = absurd (omega (arith, l))
below_lem (suc n) p k h l =
    let (last, rest) = halves (p n) (is_all_below n p) h in
    elim (Bool-cases (k == n)) [
      | inl e ↦ ap p ((==_iff k n).0 e) ∙ last
      | inr e ↦ below_lem n p k rest (ground (arith, e))
    ]

index_check : is_all_below 32 (λ g. index_of (letter_at alphabet g) == g) ≡ true
unfolding is_all_below
index_check = refl

index_lem : (g : ℕ) → g < 32 → index_of (letter_at alphabet g) ≡ g
index_lem g l =
    ground (arith, below_lem 32 (λ k. index_of (letter_at alphabet k) == k) g index_check l)

-- The letters as groups of five bits.
heard : String → List ℕ
heard String.[] = []
heard (String.◌∷◌ c s) = index_of c ∷ heard s

heard_lem : (gs : List ℕ) → All (λ g. g < 32) gs → heard (spell gs) ≡ gs
unfolding heard
heard_lem [] h = refl
heard_lem (g ∷ gs) (l, h) = ap₂ (λ x xs. x ∷ xs) (index_lem g l) (heard_lem gs h)

small_groups :
    (n v : ℕ) (rest : List ℕ) → All (λ g. g < 32) rest → All (λ g. g < 32) (groups n v rest)
unfolding groups
small_groups zero v rest h = h
small_groups (suc n) v rest h = small_groups n (v / 32) (v % 32 ∷ rest) (omega arith, h)

-- The number that groups spell, and what is left of a number above them.
read : ℕ → List ℕ → ℕ
read acc [] = acc
read acc (g ∷ gs) = read (acc * 32 + g) gs

above : ℕ → ℕ → ℕ
above zero v = v
above (suc n) v = above n (v / 32)

read_lem : (n v : ℕ) (rest : List ℕ) → read (above n v) (groups n v rest) ≡ read v rest
unfolding groups read above
read_lem zero v rest = refl
read_lem (suc n) v rest =
    let whole : v / 32 * 32 + v % 32 ≡ v = omega arith in
    read_lem n (v / 32) (v % 32 ∷ rest) ∙ ap (λ x. read x rest) whole

-- The first number that does not fit into groups, and the first that does not fit into bytes.
over_groups : ℕ → ℕ
over_groups zero = 1
over_groups (suc n) = 32 * over_groups n

above_lem : (n v : ℕ) → v < over_groups n → above n v ≡ 0
unfolding above over_groups
above_lem zero v l = omega (arith, l)
above_lem (suc n) v l = above_lem n (v / 32) (omega (arith, l))

over_bytes : ℕ → ℕ → ℕ
over_bytes u zero = u
over_bytes u (suc n) = over_bytes (u * 256) n

over_bytes_mono : (u w n : ℕ) → u ≤ w → over_bytes u n ≤ over_bytes w n
unfolding over_bytes
over_bytes_mono u w zero l = l
over_bytes_mono u w (suc n) l = over_bytes_mono (u * 256) (w * 256) n (omega (arith, l))

abbrev pub IsByte : ℕ → Type 0
IsByte b = b < 256

number_lem : (a : ℕ) (bs : List ℕ) → All IsByte bs → number_of a bs < over_bytes (suc a) (length bs)
unfolding over_bytes
number_lem a [] h = omega arith
number_lem a (b ∷ bs) (l, h) =
    let low = number_lem (a * 256 + b) bs h in
    let high = over_bytes_mono (suc (a * 256 + b)) (suc a * 256) (length bs) (omega (arith, l)) in
    omega (arith, low, high)

number_of-injective :
    (a a' : ℕ) (bs bs' : List ℕ)
    → length bs ≡ length bs'
    → All IsByte bs
    → All IsByte bs'
    → number_of a bs ≡ number_of a' bs'
    → (a ≡ a') × (bs ≡ bs')
number_of-injective a a' [] [] e h h' q = (q, refl)
number_of-injective a a' [] (b ∷ bs) e h h' q = absurd (omega (arith, e))
number_of-injective a a' (b ∷ bs) [] e h h' q = absurd (omega (arith, e))
number_of-injective a a' (b ∷ bs) (b' ∷ bs') e (l, h) (l', h') q =
    let (top, same) =
      number_of-injective (a * 256 + b) (a' * 256 + b') bs bs' (omega (arith, e)) h h' q in
    let heads : a ≡ a' = omega (arith, top, l, l') in
    let bytes : b ≡ b' = omega (arith, top, l, l') in (heads, ap₂ (λ x xs. x ∷ xs) bytes same)

slug_number :
    (bytes : List ℕ)
    → length bytes ≡ 10
    → All IsByte bytes
    → read 0 (heard (slug_of bytes)) ≡ number_of 0 bytes
unfolding slug_of read over_groups over_bytes
slug_number bytes e h =
    let gs = groups slug_len (number_of 0 bytes) [] in
    let fits : number_of 0 bytes < over_groups 16 =
      subst (λ n. number_of 0 bytes < over_bytes 1 n) e (number_lem 0 bytes h) in
    ap (read 0) (heard_lem gs (small_groups 16 (number_of 0 bytes) [] tt))
    ∙ ap (λ a. read a gs) (sym (above_lem 16 (number_of 0 bytes) fits))
    ∙ read_lem 16 (number_of 0 bytes) []

-- Two slugs of ten random bytes each are equal only if the bytes are.
pub slug_of-injective :
    (xs ys : List ℕ)
    → length xs ≡ 10
    → length ys ≡ 10
    → All IsByte xs
    → All IsByte ys
    → slug_of xs ≡ slug_of ys
    → xs ≡ ys
slug_of-injective xs ys e e' h h' q =
    (number_of-injective 0 0 xs ys (e ∙ sym e') h h'
      (sym (slug_number xs e h) ∙ ap (λ s. read 0 (heard s)) q ∙ slug_number ys e' h')).1
