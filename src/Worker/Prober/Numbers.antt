-- ===== src/Worker/Prober/Numbers.antt =====
-- Addresses as numbers, and the tests of the guard as ranges of them.
use ping.Prelude.{
  ℕ, ◌+◌, ◌*◌, ◌<◌, ◌≡◌, Bool, true, false, not, ◌&&◌, ◌||◌, leb, ltb, ◌==◌, ◌%◌, arith,
}
use ping.Worker.Prober.Guard.{
  v4, v6, is_private, is_loopback, is_link_local_unicast, is_link_local_multicast, is_multicast,
  is_unspecified, is_global_unicast, is_blocked_addr,
}

-- An address as a number of 32 bits.
abbrev pub value : ℕ → ℕ → ℕ → ℕ → ℕ
value a b c d = ((a * 256 + b) * 256 + c) * 256 + d

abbrev is_in : ℕ → ℕ → ℕ → Bool
is_in low size n = leb low n && ltb n (low + size)

-- The ranges that a probe keeps out of: this host, 10.0.0.0/8, 127.0.0.0/8, 169.254.0.0/16,
-- 172.16.0.0/12, 192.168.0.0/16, 224.0.0.0/4, and the broadcast address.
abbrev pub is_special_v4 : ℕ → Bool
is_special_v4 n =
    n == 0
    || is_in (10 * 16777216) 16777216 n
    || is_in (127 * 16777216) 16777216 n
    || is_in (169 * 16777216 + 254 * 65536) 65536 n
    || is_in (172 * 16777216 + 16 * 65536) 1048576 n
    || is_in (192 * 16777216 + 168 * 65536) 65536 n
    || is_in (224 * 16777216) 268435456 n
    || n == 4294967295

module _ (a b c d : ℕ) (ha : a < 256) (hb : b < 256) (hc : c < 256) (hd : d < 256) where
  first_octet : (n : ℕ) → is_in (n * 16777216) 16777216 (value a b c d) ≡ (a == n)
  first_octet n = ground arith

  two_octets :
      (n k : ℕ)
      → k < 256
      → is_in (n * 16777216 + k * 65536) 65536 (value a b c d) ≡ (a == n && b == k)
  two_octets n k hk = ground arith

  half_octet :
      is_in (172 * 16777216 + 16 * 65536) 1048576 (value a b c d)
      ≡ (a == 172 && (leb 16 b && leb b 31))
  half_octet = ground arith

  classes : is_in (224 * 16777216) 268435456 (value a b c d) ≡ (leb 224 a && leb a 239)
  classes = ground arith

  nowhere : (value a b c d == 0) ≡ (a == 0 && b == 0 && c == 0 && d == 0)
  nowhere = ground arith

  everywhere : (value a b c d == 4294967295) ≡ (a == 255 && b == 255 && c == 255 && d == 255)
  everywhere = ground arith

  local_classes : (a == 224 && b == 0 && c == 0) ≡ true → (leb 224 a && leb a 239) ≡ true
  local_classes h = ground arith

-- The tests of the guard, as a disjunction of the ranges.
gathered :
    (p q r l u m g z b : Bool)
    → (m ≡ true → g ≡ true)
    → ((p || q || r) || l || u || m || g || z || not (not z && not b && not l && not g && not u))
      ≡ (z || p || l || u || q || r || g || b)
gathered p q r l u m g z b h = ground arith

pub blocked_v4 :
    (a b c d : ℕ)
    → a < 256
    → b < 256
    → c < 256
    → d < 256
    → is_blocked_addr (v4 a b c d) ≡ is_special_v4 (value a b c d)
unfolding is_blocked_addr is_global_unicast is_unspecified is_loopback is_multicast
    is_link_local_unicast is_private is_link_local_multicast
blocked_v4 a b c d ha hb hc hd =
    rw
      (
        nowhere a b c d ha hb hc hd,
        first_octet a b c d ha hb hc hd 10,
        first_octet a b c d ha hb hc hd 127,
        two_octets a b c d ha hb hc hd 169 254 (omega arith),
        half_octet a b c d ha hb hc hd,
        two_octets a b c d ha hb hc hd 192 168 (omega arith),
        classes a b c d ha hb hc hd,
        everywhere a b c d ha hb hc hd,
      )
      (gathered (a == 10) (a == 172 && (leb 16 b && leb b 31)) (a == 192 && b == 168) (a == 127)
        (a == 169 && b == 254) (a == 224 && b == 0 && c == 0) (leb 224 a && leb a 239)
        (a == 0 && b == 0 && c == 0 && d == 0) (a == 255 && b == 255 && c == 255 && d == 255)
        (local_classes a b c d ha hb hc hd))

-- 2 ^ 112, the size of a range that its first group gives.
abbrev pub group_size : ℕ
group_size = 5192296858534827628530496329220096

-- The last seven groups.
abbrev pub rest : ℕ → ℕ → ℕ → ℕ → ℕ → ℕ → ℕ → ℕ
rest g₁ g₂ g₃ g₄ g₅ g₆ g₇ =
    (((((g₁ * 65536 + g₂) * 65536 + g₃) * 65536 + g₄) * 65536 + g₅) * 65536 + g₆) * 65536 + g₇

-- The ranges of IPv6: :: and ::1, fc00::/7, fe80::/10 and ff00::/8.
abbrev pub is_special_v6 : ℕ → Bool
is_special_v6 n =
    ltb n 2
    || is_in (64512 * group_size) (512 * group_size) n
    || is_in (65152 * group_size) (64 * group_size) n
    || is_in (65280 * group_size) (256 * group_size) n

rest_bound :
    (g₁ g₂ g₃ g₄ g₅ g₆ g₇ : ℕ)
    → g₁ < 65536
    → g₂ < 65536
    → g₃ < 65536
    → g₄ < 65536
    → g₅ < 65536
    → g₆ < 65536
    → g₇ < 65536
    → rest g₁ g₂ g₃ g₄ g₅ g₆ g₇ < group_size
rest_bound g₁ g₂ g₃ g₄ g₅ g₆ g₇ h₁ h₂ h₃ h₄ h₅ h₆ h₇ = omega arith

first_group :
    (g r low size : ℕ)
    → r < group_size
    → is_in (low * group_size) (size * group_size) (g * group_size + r)
      ≡ (leb low g && ltb g (low + size))
first_group g r low size h = ground arith

abbrev is_zero : ℕ → ℕ → ℕ → ℕ → ℕ → ℕ → ℕ → Bool
is_zero g₀ g₁ g₂ g₃ g₄ g₅ g₆ =
    g₀ == 0 && g₁ == 0 && g₂ == 0 && g₃ == 0 && g₄ == 0 && g₅ == 0 && g₆ == 0

lowest :
    (g₀ g₁ g₂ g₃ g₄ g₅ g₆ g₇ : ℕ)
    → ltb (g₀ * group_size + rest g₁ g₂ g₃ g₄ g₅ g₆ g₇) 2 ≡ (
        (g₀ == 0 && g₁ == 0 && g₂ == 0 && g₃ == 0 && g₄ == 0 && g₅ == 0 && g₆ == 0 && g₇ == 0)
        || (g₀ == 0 && g₁ == 0 && g₂ == 0 && g₃ == 0 && g₄ == 0 && g₅ == 0 && g₆ == 0 && g₇ == 1))
lowest g₀ g₁ g₂ g₃ g₄ g₅ g₆ g₇ = ground arith

to_size : (low high g : ℕ) → (leb low g && ltb g (high + 1)) ≡ (leb low g && leb g high)
to_size low high g = ground arith

gathered_v6 :
    (p l u m g z : Bool)
    → (m ≡ true → g ≡ true)
    → (p || l || u || m || g || z || not (not z && not false && not l && not g && not u))
      ≡ ((z || l) || p || u || g)
gathered_v6 p l u m g z h = ground arith

first_of : (x y : Bool) → (x && y) ≡ true → x ≡ true
first_of x y h = ground arith

pub blocked_v6 :
    (g₀ g₁ g₂ g₃ g₄ g₅ g₆ g₇ : ℕ)
    → g₁ < 65536
    → g₂ < 65536
    → g₃ < 65536
    → g₄ < 65536
    → g₅ < 65536
    → g₆ < 65536
    → g₇ < 65536
    → is_blocked_addr (v6 g₀ g₁ g₂ g₃ g₄ g₅ g₆ g₇)
      ≡ is_special_v6 (g₀ * group_size + rest g₁ g₂ g₃ g₄ g₅ g₆ g₇)
unfolding is_blocked_addr is_global_unicast is_unspecified is_loopback is_multicast
    is_link_local_unicast is_private is_link_local_multicast
blocked_v6 g₀ g₁ g₂ g₃ g₄ g₅ g₆ g₇ h₁ h₂ h₃ h₄ h₅ h₆ h₇ =
    let r = rest g₁ g₂ g₃ g₄ g₅ g₆ g₇ in
    let small = rest_bound g₁ g₂ g₃ g₄ g₅ g₆ g₇ h₁ h₂ h₃ h₄ h₅ h₆ h₇ in
    let addr = v6 g₀ g₁ g₂ g₃ g₄ g₅ g₆ g₇ in
    rw
      (
        lowest g₀ g₁ g₂ g₃ g₄ g₅ g₆ g₇,
        first_group g₀ r 64512 512 small,
        first_group g₀ r 65152 64 small,
        first_group g₀ r 65280 256 small,
        to_size 64512 65023 g₀,
        to_size 65152 65215 g₀,
        to_size 65280 65535 g₀,
      )
      (gathered_v6 (is_private addr) (is_loopback addr) (is_link_local_unicast addr)
        (is_link_local_multicast addr) (is_multicast addr) (is_unspecified addr)
        (first_of (leb 65280 g₀ && leb g₀ 65535) (g₀ % 16 == 2)))
