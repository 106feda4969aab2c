-- ===== src/Server/Checkin/Laws.antt =====
-- What the answer of a ping says, and which pings leave no trace.
use Prim.Native.String.{◌++◌}
use ping.Prelude.{
  ℕ, ◌/◌, ◌≡◌, refl, sym, ap, ap₂, ◌∙◌, ◌⊎◌, inl, inr, String, Bool, true, not, Option, none, some,
  List, find, if◌then◌else◌, Bool-cases, arith,
}
use ping.Schedule.{Zones, Instant, second}
use ping.Db.{Db, CheckinKind}
use ping.Db.Result.{Result, ok, err, invalid_text}
use ping.Db.Monitors.{has_slug, get_monitor_by_slug_for_update}
use ping.Store.{Conn, Op, with_tx}
use ping.Store.Steps.{Ensures, exec-Ensures, missing-Ensures, with_tx-Ensures, >>=-Ensures}
use ping.Store.Tx.{with_tx_rollback}
use ping.Store.Checkin.{RecordCheckinParams, record_checkin}
use ping.Store.Checkin.Laws.{record_checkin-Ensures}
use ping.Store.RateLimit.{Redis, allow}
use ping.Server.Checkin.{
  Ping, PingResponse, ping_ok, rate_limited, body_of, refuse_text, record_with, ingest,
  ping_rate_limit, ping_rate_window,
}

-- A transaction that cannot end well from these tables leaves them.
module _ {A : Type 0} (m : Op A) (P : Db → A → Db → Type 0) (h : Ensures (with_tx m) P) (c : Conn)
    (never : (a : A) (d : Db) → P c.db a d → ⊥) where
  ended : (r : Result A) → (with_tx m c).0 ≡ r → (with_tx m c).1.db ≡ c.db
  ended (ok a) e =
      absurd (never a _ (h.holds c (with_tx m c).1 a (ap (λ r. (r, (with_tx m c).1)) e)))
  ended (err x) e = with_tx_rollback m c x e

  silent : (with_tx m c).1.db ≡ c.db
  silent = ended (with_tx m c).0 refl

module _ (z : Zones) (parse_addr : String → Option String) (decode : List ℕ → Option String) where
  unknown_rests :
      (p : RecordCheckinParams) (c : Conn)
      → find (has_slug p.slug) c.db.monitors ≡ none
      → (record_checkin z parse_addr p c).1.db ≡ c.db
  unfolding record_checkin
  unknown_rests p c h =
      silent _ _ (record_checkin-Ensures z parse_addr p) c
        (λ a d (m, nd, found, _, _, _). absurd (ground (arith, sym h ∙ found)))

  refused_rests : (slug : String) (c : Conn) → (refuse_text z parse_addr decode slug c).1.db ≡ c.db
  refused_rests slug c =
      silent _ _
        (with_tx-Ensures (
          >>=-Ensures (missing-Ensures (exec-Ensures (get_monitor_by_slug_for_update slug)))
            (λ m. exec-Ensures (λ db. err invalid_text))))
        c (λ a d (m, d₁, _, q). absurd (ground arith))

  -- A ping that is not recorded: its slug is unknown, or its body is no text.
  abbrev pub IsLost : Ping → Conn → Type 0
  IsLost p c = (decode (body_of p) ≡ none) ⊎ (find (has_slug p.slug) c.db.monitors ≡ none)

  recorded_rests :
      (p : Ping) (kind : CheckinKind) (now : Instant) (c : Conn) (o : Option String)
      → decode (body_of p) ≡ o
      → IsLost p c
      → (record_with z parse_addr decode p kind now o c).1.db ≡ c.db
  recorded_rests p kind now c none e lost = refused_rests p.slug c
  recorded_rests p kind now c (some body) e (inl q) = absurd (ground (arith, sym e ∙ q))
  recorded_rests p kind now c (some body) e (inr q) = unknown_rests _ c q

  module _ (redis : Redis) (now : Instant) (s : redis.State) where
    -- The answer by the address and the method alone.
    abbrev answer_of : String → Bool → PingResponse
    answer_of ip is_head =
        let r = allow redis ("rate:ping:" ++ ip) ping_rate_limit ping_rate_window now true s in
        if r.0.allowed then ping_ok (not is_head) else rate_limited (r.0.retry_after / second)

    answered :
        (p : Ping) (kind : CheckinKind) (c : Conn)
        → (ingest z parse_addr decode redis p kind now s c).0 ≡ answer_of p.ip p.is_head
    unfolding ingest
    answered p kind c =
        elim (Bool-cases
          (allow redis ("rate:ping:" ++ p.ip) ping_rate_limit ping_rate_window now true
            s).0.allowed) [ inl e ↦ rw e refl | inr e ↦ rw e refl ]

    rests :
        (p : Ping) (kind : CheckinKind) (c : Conn)
        → IsLost p c
        → (ingest z parse_addr decode redis p kind now s c).2.db ≡ c.db
    unfolding ingest
    rests p kind c lost =
        elim (Bool-cases
          (allow redis ("rate:ping:" ++ p.ip) ping_rate_limit ping_rate_window now true
            s).0.allowed) [
              | inl e ↦ rw e (recorded_rests p kind now c (decode (body_of p)) refl lost)
              | inr e ↦ rw e refl
            ]

    -- A ping of an unknown slug, or with a body that is no text, leaves the tables, and its answer
    -- is that of any other ping from the same address with a method of the same kind, whatever the
    -- tables are.
    pub lost_ping :
        (p q : Ping) (kind kind' : CheckinKind) (c c' : Conn)
        → p.ip ≡ q.ip
        → p.is_head ≡ q.is_head
        → IsLost p c
        → ((ingest z parse_addr decode redis p kind now s c).2.db ≡ c.db)
          × ((ingest z parse_addr decode redis p kind now s c).0
              ≡ (ingest z parse_addr decode redis q kind' now s c').0)
    lost_ping p q kind kind' c c' ip head lost =
        (rests p kind c lost, answered p kind c ∙ ap₂ answer_of ip head ∙ sym (answered q kind' c'))
