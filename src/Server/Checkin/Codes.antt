-- ===== src/Server/Checkin/Codes.antt =====
-- What an exit code in the path of a ping means.
use ping.Prelude.{
  ℕ, ◌+◌, ◌-◌, ◌*◌, ◌<◌, ◌≡◌, refl, ap, ◌∙◌, inl, inr, Bool, true, false, ◌&&◌, ◌||◌, none, some,
  List, [], ◌∷◌, map, All, ltb, leb, ◌==◌, if◌then◌else◌, Bool-cases, arith,
}
use ping.Prelude.Int.{pos}
use ping.Db.{success, fail}
use ping.Server.Checkin.{is_digit, digits_value, fit, max_int64, atoi, kind_of, exit_code}

-- The digits of a number as they stand in a path.
abbrev pub written : ℕ → ℕ
written d = 48 + d

-- The number that digits stand for, first digit first.
unfoldable pub value_from : ℕ → List ℕ → ℕ
value_from acc [] = acc
value_from acc (d ∷ ds) = value_from (acc * 10 + d) ds

unfoldable pub is_all_zero : List ℕ → Bool
is_all_zero [] = true
is_all_zero (d ∷ ds) = (d == 0) && is_all_zero ds

digits_lem :
    (acc : ℕ) (ds : List ℕ)
    → All (λ d. d < 10) ds
    → digits_value acc (map written ds) ≡ some (value_from acc ds)
unfolding digits_value value_from
digits_lem acc [] h = refl
digits_lem acc (d ∷ ds) (l, h) =
    let digit : is_digit (48 + d) ≡ true = ground arith in
    let back : 48 + d - 48 ≡ d = omega arith in rw (digit, back) (digits_lem (acc * 10 + d) ds h)

positive : (acc : ℕ) (ds : List ℕ) → 0 < acc → (value_from acc ds == 0) ≡ false
unfolding value_from
positive acc [] l = ground arith
positive acc (d ∷ ds) l = positive (acc * 10 + d) ds (omega arith)

zero_lem : (ds : List ℕ) → (value_from 0 ds == 0) ≡ is_all_zero ds
unfolding value_from is_all_zero
zero_lem [] = refl
zero_lem (d ∷ ds) = elim (Bool-cases (d == 0)) [
  | inl e ↦ let nil : d ≡ 0 = ground arith in rw nil (zero_lem ds)
  | inr e ↦ rw e (positive (0 * 10 + d) ds (ground arith))
]

kind_lem :
    (n m : ℕ)
    → 0 < m
    → kind_of (if leb n m then some (pos n) else none)
      ≡ (if (n == 0) || ltb m n then success else fail)
kind_lem n m l = ground (arith, l)

-- A ping whose exit code is written in digits, at least one of them, is a success if they are all
-- zeros or the number is above 2 ^ 63 - 1, and else a failure.
pub exit_code_lem :
    (d : ℕ) (ds : List ℕ)
    → All (λ x. x < 10) (d ∷ ds)
    → exit_code (map written (d ∷ ds))
      ≡ (if is_all_zero (d ∷ ds) || ltb max_int64 (value_from 0 (d ∷ ds)) then success else fail)
unfolding exit_code atoi
exit_code_lem d ds (l, h) =
    let minus : (48 + d == 45) ≡ false = ground arith in
    let plus : (48 + d == 43) ≡ false = ground arith in
    rw (minus, plus)
      (ap (λ o. kind_of (fit o)) (digits_lem 0 (d ∷ ds) (l, h))
        ∙ kind_lem (value_from 0 (d ∷ ds)) max_int64 (omega arith)
        ∙ ap (λ b. if b || ltb max_int64 (value_from 0 (d ∷ ds)) then success else fail)
            (zero_lem (d ∷ ds)))
