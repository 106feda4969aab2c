-- ===== src/Schedule/Text.antt =====
-- The functions of Go's package strings that the schedule's validation calls, over code points.
use Prim.Native.Char.{code}
use Prim.Native.String.{String, [], ◌∷◌}
use ping.Prelude.{ℕ, Bool, true, false, ◌||◌, ◌&&◌, List, [], ◌∷◌, ◌++◌, ◌==◌, leb, if◌then◌else◌}

abbrev pub codes : String → List ℕ
codes String.[] = []
codes (String.◌∷◌ c s) = code c ∷ codes s

abbrev pub is_empty : String → Bool
is_empty String.[] = true
is_empty (String.◌∷◌ c s) = false

-- strings.Contains with a text of one character.
unfoldable pub contains : ℕ → List ℕ → Bool
contains k [] = false
contains k (c ∷ s) = (c == k) || contains k s

-- unicode.IsSpace: the White_Space property.
unfoldable pub is_space : ℕ → Bool
is_space c =
    (leb 9 c && leb c 13)
    || (c == 32)
    || (c == 0x85)
    || (c == 0xA0)
    || (c == 0x1680)
    || (leb 0x2000 c && leb c 0x200a)
    || (c == 0x2028)
    || (c == 0x2029)
    || (c == 0x202f)
    || (c == 0x205f)
    || (c == 0x3000)

abbrev push_field : List ℕ → List (List ℕ) → List (List ℕ)
push_field [] rest = rest
push_field (c ∷ s) rest = (c ∷ s) ∷ rest

-- The loop of strings.Fields: `word` is what has been read of the current field.
fields_from : List ℕ → List ℕ → List (List ℕ)
fields_from word [] = push_field word []
fields_from word (c ∷ s) =
    let closed = push_field word (fields_from [] s) in
    let longer = fields_from (word ++ c ∷ []) s in if is_space c then closed else longer

-- strings.Fields.
unfoldable pub fields : List ℕ → List (List ℕ)
unfolding fields_from is_space
fields s = fields_from [] s
