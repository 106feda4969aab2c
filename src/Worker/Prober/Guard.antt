-- ===== src/Worker/Prober/Guard.antt =====
-- backend/worker/prober/probe.go: the guard that keeps probes out of private networks. An address is
-- netip.Addr as its octets, or as its eight groups, and the tests on it are those that Go's netip
-- documents. ParseAddr and the resolver are parameters, and an entry of the allowlist is the test
-- Contains of its prefix.
use ping.Prelude.{
  ℕ, String, Bool, true, false, not, ◌&&◌, ◌||◌, Option, none, some, List, [], ◌∷◌, leb, ◌==◌, ◌%◌,
  if◌then◌else◌,
}
use Prim.Native.Nat.{◌/◌}

pub data Addr : Type 0 where
  v4 : (a b c d : ℕ) → Addr
  v6 : (g₀ g₁ g₂ g₃ g₄ g₅ g₆ g₇ : ℕ) → Addr

abbrev is_between : ℕ → ℕ → ℕ → Bool
is_between low high n = leb low n && leb n high

-- IPv4 in IPv6, ::ffff:0:0/96.
abbrev is_mapped : Addr → Bool
is_mapped (v4 a b c d) = false
is_mapped (v6 g₀ g₁ g₂ g₃ g₄ g₅ g₆ g₇) =
    g₀ == 0 && g₁ == 0 && g₂ == 0 && g₃ == 0 && g₄ == 0 && g₅ == 65535

abbrev low_v4 : Addr → Addr
low_v4 (v4 a b c d) = v4 a b c d
low_v4 (v6 g₀ g₁ g₂ g₃ g₄ g₅ g₆ g₇) = v4 (g₆ / 256) (g₆ % 256) (g₇ / 256) (g₇ % 256)

abbrev pub unmap : Addr → Addr
unmap addr = if is_mapped addr then low_v4 addr else addr

unfoldable pub is_private : Addr → Bool
is_private (v4 a b c d) = a == 10 || (a == 172 && is_between 16 31 b) || (a == 192 && b == 168)
is_private (v6 g₀ g₁ g₂ g₃ g₄ g₅ g₆ g₇) = is_between 64512 65023 g₀

unfoldable pub is_loopback : Addr → Bool
is_loopback (v4 a b c d) = a == 127
is_loopback (v6 g₀ g₁ g₂ g₃ g₄ g₅ g₆ g₇) =
    g₀ == 0 && g₁ == 0 && g₂ == 0 && g₃ == 0 && g₄ == 0 && g₅ == 0 && g₆ == 0 && g₇ == 1

unfoldable pub is_link_local_unicast : Addr → Bool
is_link_local_unicast (v4 a b c d) = a == 169 && b == 254
is_link_local_unicast (v6 g₀ g₁ g₂ g₃ g₄ g₅ g₆ g₇) = is_between 65152 65215 g₀

unfoldable pub is_multicast : Addr → Bool
is_multicast (v4 a b c d) = is_between 224 239 a
is_multicast (v6 g₀ g₁ g₂ g₃ g₄ g₅ g₆ g₇) = is_between 65280 65535 g₀

-- 224.0.0.0/24, and ff02 in a group whose flags are masked.
unfoldable pub is_link_local_multicast : Addr → Bool
is_link_local_multicast (v4 a b c d) = a == 224 && b == 0 && c == 0
is_link_local_multicast (v6 g₀ g₁ g₂ g₃ g₄ g₅ g₆ g₇) = is_between 65280 65535 g₀ && g₀ % 16 == 2

unfoldable pub is_unspecified : Addr → Bool
is_unspecified (v4 a b c d) = a == 0 && b == 0 && c == 0 && d == 0
is_unspecified (v6 g₀ g₁ g₂ g₃ g₄ g₅ g₆ g₇) =
    g₀ == 0 && g₁ == 0 && g₂ == 0 && g₃ == 0 && g₄ == 0 && g₅ == 0 && g₆ == 0 && g₇ == 0

abbrev is_broadcast : Addr → Bool
is_broadcast (v4 a b c d) = a == 255 && b == 255 && c == 255 && d == 255
is_broadcast (v6 g₀ g₁ g₂ g₃ g₄ g₅ g₆ g₇) = false

unfoldable pub is_global_unicast : Addr → Bool
unfolding is_unspecified is_loopback is_multicast is_link_local_unicast
is_global_unicast addr =
    not (is_unspecified addr)
    && not (is_broadcast addr)
    && not (is_loopback addr)
    && not (is_multicast addr)
    && not (is_link_local_unicast addr)

unfoldable pub is_blocked_addr : Addr → Bool
unfolding is_private is_loopback is_link_local_unicast is_link_local_multicast is_multicast
    is_unspecified is_global_unicast
is_blocked_addr addr =
    is_private addr
    || is_loopback addr
    || is_link_local_unicast addr
    || is_link_local_multicast addr
    || is_multicast addr
    || is_unspecified addr
    || not (is_global_unicast addr)

pub data DialError : Type 0 where
  lookup_failed : DialError
  no_addresses : DialError
  disallowed : Addr → DialError
  bad_address : DialError

pub data Guarded : Type 0 where
  allowed : Addr → Guarded
  refused : DialError → Guarded

unfoldable pub is_listed : List (Addr → Bool) → Addr → Bool
is_listed [] addr = false
is_listed (prefix ∷ allowlist) addr = if prefix addr then true else is_listed allowlist addr

unfoldable pub guard_addr : Addr → List (Addr → Bool) → Guarded
unfolding is_blocked_addr is_listed
guard_addr raw allowlist =
    let addr = unmap raw in
    if is_listed allowlist addr
    then allowed addr
    else if is_blocked_addr addr
    then refused (disallowed addr)
    else allowed addr

-- The answer of the resolver, none if the lookup fails.
abbrev pub guard_first : Option (List Addr) → List (Addr → Bool) → Guarded
guard_first none allowlist = refused lookup_failed
guard_first (some []) allowlist = refused no_addresses
guard_first (some (addr ∷ _)) allowlist = guard_addr addr allowlist

abbrev pub guard_host : Option Addr → Option (List Addr) → List (Addr → Bool) → Guarded
guard_host (some addr) answer allowlist = guard_addr addr allowlist
guard_host none answer allowlist = guard_first answer allowlist

unfoldable pub resolve_and_guard :
    (String → Option Addr) → (String → Option (List Addr)) → String → List (Addr → Bool) → Guarded
unfolding guard_addr
resolve_and_guard parse_addr lookup host allowlist =
    guard_host (parse_addr host) (lookup host) allowlist

-- The connection of each hop of a probe: `split` is net.SplitHostPort, which gives the host, and
-- the dialer is given the address that passed the guard.
abbrev pub guard_split :
    (String → Option Addr)
    → (String → Option (List Addr))
    → Option String
    → List (Addr → Bool)
    → Guarded
guard_split parse_addr lookup none allowlist = refused bad_address
guard_split parse_addr lookup (some host) allowlist =
    resolve_and_guard parse_addr lookup host allowlist

unfoldable pub guarded_dial :
    (String → Option Addr)
    → (String → Option (List Addr))
    → (String → Option String)
    → String
    → List (Addr → Bool)
    → Guarded
unfolding resolve_and_guard
guarded_dial parse_addr lookup split addr allowlist =
    guard_split parse_addr lookup (split addr) allowlist
