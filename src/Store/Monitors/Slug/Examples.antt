-- ===== src/Store/Monitors/Slug/Examples.antt =====
-- The slug of all zeros.
use ping.Prelude.{ℕ, ◌≡◌, refl, List, [], ◌∷◌, All, arith}
use ping.Store.Monitors.Slug.{groups, slug_of}
use ping.Store.Monitors.Slug.Laws.{IsByte, slug_of-injective}

abbrev zeros : List ℕ
zeros = 0 ∷ 0 ∷ 0 ∷ 0 ∷ 0 ∷ 0 ∷ 0 ∷ 0 ∷ 0 ∷ 0 ∷ []

zeros_slug : slug_of zeros ≡ "aaaaaaaaaaaaaaaa"
unfolding slug_of groups
zeros_slug = refl

small : IsByte 0
small = omega arith

zeros-IsByte : All IsByte zeros
zeros-IsByte =
    (small, (small, (small, (small, (small, (small, (small, (small, (small, (small, tt))))))))))

slug_of-injective_example : zeros ≡ zeros
slug_of-injective_example = slug_of-injective zeros zeros refl refl zeros-IsByte zeros-IsByte refl
