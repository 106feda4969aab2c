-- ===== src/Worker/Prober/Examples.antt =====
-- A name that resolves to the metadata service, and a page with its keyword.
use ping.Prelude.{
  ℕ, ◌≡◌, refl, ◌⊎◌, ◌↔◌, ◌||◌, String, true, false, not, Option, none, some, List, [], ◌∷◌, arith,
  if◌then◌else◌,
}
use ping.Worker.Prober.{HttpConfig, Exchange, answered, run_probe}
use ping.Worker.Prober.Guard.{
  Addr, v4, v6, unmap, allowed, refused, disallowed, is_listed, guard_addr, resolve_and_guard,
  guarded_dial, is_blocked_addr, is_private, is_loopback, is_link_local_unicast,
  is_link_local_multicast, is_multicast, is_unspecified, is_global_unicast,
}
use ping.Worker.Prober.Ranges.{is_special, guard_addr_lem, dial_guarded}
use ping.Worker.Prober.Laws.{IsHealthy, run_probe_iff}

-- 169.254.169.254, as IPv4 in IPv6.
abbrev metadata : Addr
metadata = v6 0 0 0 0 0 65535 43518 43518

guard_addr_lem_example : guard_addr metadata [] ≡ (
    if is_listed [] (unmap metadata) || not (is_special (unmap metadata))
    then allowed (unmap metadata)
    else refused (disallowed (unmap metadata)))
guard_addr_lem_example =
    guard_addr_lem metadata [] (omega arith, omega arith, omega arith, omega arith)

abbrev no_literal : String → Option Addr
no_literal host = none

abbrev resolved : String → Option (List Addr)
resolved host = some (v4 93 184 216 34 ∷ [])

abbrev host_of : String → Option String
host_of target = some target

goes_out : guarded_dial no_literal resolved host_of "example.com" [] ≡ allowed (v4 93 184 216 34)
unfolding guarded_dial resolve_and_guard guard_addr is_listed is_blocked_addr is_private is_loopback
    is_link_local_unicast is_link_local_multicast is_multicast is_unspecified is_global_unicast
goes_out = refl

dial_guarded_example :
    (is_listed [] (v4 93 184 216 34) ≡ true) ⊎ (is_special (v4 93 184 216 34) ≡ false)
dial_guarded_example =
    dial_guarded no_literal resolved host_of "example.com" [] (v4 93 184 216 34) goes_out
      (omega arith, omega arith, omega arith, omega arith)

abbrev ok_word : List ℕ
ok_word = 111 ∷ 107 ∷ []

abbrev wants_ok : HttpConfig
wants_ok = record { keyword = ok_word; keyword_negate = false; follow_redirects = none }

abbrev page : Exchange
page = answered 200 none (some (97 ∷ 111 ∷ 107 ∷ [])) 30000000

abbrev decimal : ℕ → String
decimal n = "200"

run_probe_iff_example :
    ((run_probe decimal wants_ok page).succeeded ≡ true) ↔ IsHealthy wants_ok page
run_probe_iff_example = run_probe_iff decimal wants_ok page
