-- ===== src/Worker/Prober/Ranges.antt =====
-- The guard against a table of address ranges.
use ping.Prelude.{
  ◌+◌, ◌*◌, ◌<◌, ◌≡◌, refl, ap, ◌∙◌, sym, ◌⊎◌, inl, inr, String, Bool, true, false, not, ◌||◌,
  Option, none, some, List, [], ◌∷◌, arith, if◌then◌else◌,
}
use ping.Worker.Prober.Guard.{
  Addr, v4, v6, unmap, is_blocked_addr, guard_first, guard_host, guard_split, disallowed, DialError,
  Guarded, allowed, refused, is_listed, guard_addr, resolve_and_guard, guarded_dial,
}
use ping.Worker.Prober.Numbers.{
  value, is_special_v4, blocked_v4, group_size, rest, is_special_v6, blocked_v6,
}

abbrev pub IsAddr : Addr → Type 0
IsAddr (v4 a b c d) = (a < 256) × (b < 256) × (c < 256) × (d < 256)
IsAddr (v6 g₀ g₁ g₂ g₃ g₄ g₅ g₆ g₇) =
    (g₀ < 65536)
    × (g₁ < 65536)
    × (g₂ < 65536)
    × (g₃ < 65536)
    × (g₄ < 65536)
    × (g₅ < 65536)
    × (g₆ < 65536)
    × (g₇ < 65536)

-- Whether the address lies in one of the ranges.
abbrev pub is_special : Addr → Bool
is_special (v4 a b c d) = is_special_v4 (value a b c d)
is_special (v6 g₀ g₁ g₂ g₃ g₄ g₅ g₆ g₇) =
    is_special_v6 (g₀ * group_size + rest g₁ g₂ g₃ g₄ g₅ g₆ g₇)

blocked_lem : (addr : Addr) → IsAddr addr → is_blocked_addr addr ≡ is_special addr
blocked_lem (v4 a b c d) (ha, hb, hc, hd) = blocked_v4 a b c d ha hb hc hd
blocked_lem (v6 g₀ g₁ g₂ g₃ g₄ g₅ g₆ g₇) (h₀, h₁, h₂, h₃, h₄, h₅, h₆, h₇) =
    blocked_v6 g₀ g₁ g₂ g₃ g₄ g₅ g₆ g₇ h₁ h₂ h₃ h₄ h₅ h₆ h₇

-- The guard allows an address, with IPv4 in IPv6 taken for IPv4, exactly if it is on the allowlist
-- or lies in none of the ranges, and refuses it otherwise.
pub guard_addr_lem :
    (raw : Addr) (allowlist : List (Addr → Bool))
    → IsAddr (unmap raw)
    → guard_addr raw allowlist ≡ (
        if is_listed allowlist (unmap raw) || not (is_special (unmap raw))
        then allowed (unmap raw)
        else refused (disallowed (unmap raw)))
unfolding guard_addr
guard_addr_lem raw allowlist h = rw (blocked_lem (unmap raw) h) (
    switched (is_listed allowlist (unmap raw)) (is_special (unmap raw)) (allowed (unmap raw))
      (refused (disallowed (unmap raw))))
  where
    switched :
        (l s : Bool) (x y : Guarded)
        → (if l then x else if s then y else x) ≡ (if l || not s then x else y)
    switched l s x y = ground arith

abbrev address_or : Addr → Guarded → Addr
address_or d (allowed x) = x
address_or d (refused e) = d

allowed_same : (x addr : Addr) → allowed x ≡ allowed addr → x ≡ addr
allowed_same x addr e = ap (address_or x) e

decided :
    (l b : Bool) (x addr : Addr) (y : DialError)
    → (if l then allowed x else if b then refused y else allowed x) ≡ allowed addr
    → (x ≡ addr) × ((l ≡ true) ⊎ (b ≡ false))
decided true b x addr y e = (allowed_same x addr e, inl refl)
decided false true x addr y e = absurd (ground arith)
decided false false x addr y e = (allowed_same x addr e, inr refl)

given :
    (raw addr : Addr) (allowlist : List (Addr → Bool))
    → guard_addr raw allowlist ≡ allowed addr
    → IsAddr addr
    → (is_listed allowlist addr ≡ true) ⊎ (is_special addr ≡ false)
unfolding guard_addr
given raw addr allowlist e h =
    let (same, why) =
      decided (is_listed allowlist (unmap raw)) (is_blocked_addr (unmap raw)) (unmap raw) addr
        (disallowed (unmap raw)) e in
    elim why [
      | inl l ↦ inl (ap (is_listed allowlist) (sym same) ∙ l)
      | inr b ↦ inr (sym (blocked_lem addr h) ∙ ap is_blocked_addr (sym same) ∙ b)
    ]

-- Whatever the resolver answers, each connection of a probe goes to an address that is on the
-- allowlist or lies in none of the ranges, or to none.
pub dial_guarded :
    (parse_addr : String → Option Addr) (lookup : String → Option (List Addr))
    (split : String → Option String) (target : String) (allowlist : List (Addr → Bool))
    (addr : Addr)
    → guarded_dial parse_addr lookup split target allowlist ≡ allowed addr
    → IsAddr addr
    → (is_listed allowlist addr ≡ true) ⊎ (is_special addr ≡ false)
unfolding guarded_dial resolve_and_guard
dial_guarded parse_addr lookup split target allowlist addr e h = split_given (split target) e
  where
    answer_given :
        (answer : Option (List Addr))
        → guard_first answer allowlist ≡ allowed addr
        → (is_listed allowlist addr ≡ true) ⊎ (is_special addr ≡ false)
    answer_given none e = absurd (ground arith)
    answer_given (some []) e = absurd (ground arith)
    answer_given (some (raw ∷ _)) e = given raw addr allowlist e h

    host_given :
        (literal : Option Addr) (answer : Option (List Addr))
        → guard_host literal answer allowlist ≡ allowed addr
        → (is_listed allowlist addr ≡ true) ⊎ (is_special addr ≡ false)
    host_given (some raw) answer e = given raw addr allowlist e h
    host_given none answer e = answer_given answer e

    split_given :
        (host : Option String)
        → guard_split parse_addr lookup host allowlist ≡ allowed addr
        → (is_listed allowlist addr ≡ true) ⊎ (is_special addr ≡ false)
    split_given none e = absurd (ground arith)
    split_given (some host) e = host_given (parse_addr host) (lookup host) e
