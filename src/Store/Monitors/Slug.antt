-- ===== src/Store/Monitors/Slug.antt =====
-- backend/store/slug.go: ten random bytes as sixteen lower-case letters and digits (RFC 4648
-- base32, without padding). The bits of the bytes are read as one number, first byte first.
pub mod Laws
mod Examples
use Prim.Native.Char.{Char}
use ping.Prelude.{ℕ, zero, suc, ◌+◌, ◌*◌, ◌/◌, ◌%◌, String, List, [], ◌∷◌}

abbrev pub slug_len : ℕ
slug_len = 16

-- The value of the bytes.
abbrev pub number_of : ℕ → List ℕ → ℕ
number_of acc [] = acc
number_of acc (b ∷ bs) = number_of (acc * 256 + b) bs

-- The last `n` groups of five bits, first group first.
unfoldable pub groups : ℕ → ℕ → List ℕ → List ℕ
groups zero v rest = rest
groups (suc n) v rest = groups n (v / 32) (v % 32 ∷ rest)

abbrev pub letter_at : String → ℕ → Char
letter_at String.[] k = "a"
letter_at (String.◌∷◌ c s) zero = c
letter_at (String.◌∷◌ c s) (suc k) = letter_at s k

-- The alphabet, in lower case.
abbrev pub alphabet : String
alphabet = "abcdefghijklmnopqrstuvwxyz234567"

abbrev pub spell : List ℕ → String
spell [] = String.[]
spell (g ∷ gs) = String.◌∷◌ (letter_at alphabet g) (spell gs)

unfoldable pub slug_of : List ℕ → String
unfolding groups
slug_of bytes = spell (groups slug_len (number_of 0 bytes) [])
