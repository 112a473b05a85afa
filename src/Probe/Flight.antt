-- ===== src/Probe/Flight.antt =====
-- internal/probe/probe_unix.go and probe_tcp_unix.go: what both probers keep under their mutex, the
-- map of probes in flight, the hops and the terminus, and the critical sections that change it. A
-- key is a sequence number or a source port. `ttl` of an entry is at least 0; the guards on it are
-- those of the code. `none` is the panic of an index out of range.
pub mod Balance
pub mod Tally
pub mod Keeps
use dropline.Prelude.{
  ℕ, zero, suc, ◌+◌, ◌-◌, String, List, [], ◌∷◌, Bool, true, false, ◌&&◌, ◌||◌, Option, none, some,
  length, ltb, leb, ◌==◌, if◌then◌else◌,
}
use dropline.Prelude.Int.{ℤ, pos, ltb_ℤ, ◌+ℤ◌, ◌-ℤ◌}
use dropline.Prelude.Dict.{Dict, lookup, insert, erase}
use dropline.Prelude.Floats.{Floats}
use dropline.Probe.HopState.{HopState, Reply, record_reply}

-- `inflightProbe`, and `tcpInflight`.
pub record Entry : Type 0 where
  pub ttl : ℕ
  pub sent_at : ℤ

pub record Flight (F : Type 0) : Type 0 where
  pub inflight : Dict Entry
  pub hops : List (HopState F)
  pub terminus : ℕ

-- ttlIdx >= 0 && ttlIdx < len(p.hops), for ttlIdx = ttl - 1.
unfoldable pub in_table : ℕ → ℕ → Bool
in_table ttl n = leb 1 ttl && leb ttl n

-- A change of hops[i].
unfoldable pub modify {ℓ} : {A : Type ℓ} → ℕ → (A → A) → List A → List A
modify i f [] = []
modify zero f (h ∷ hs) = f h ∷ hs
modify (suc i) f (h ∷ hs) = h ∷ modify i f hs

-- terminus == 0 || ttl < terminus
unfoldable pub nearer : ℕ → ℕ → ℕ
nearer ttl terminus = if terminus == 0 || ltb ttl terminus then ttl else terminus

-- `pruneInflightLocked` and `pruneTCPInflightLocked`: the entries that stay, and the hops.
unfoldable pub kept : ℤ → Dict Entry → Dict Entry
kept cutoff [] = []
kept cutoff ((k, e) ∷ m) =
    let rest = kept cutoff m in if ltb_ℤ e.sent_at cutoff then rest else (k, e) ∷ rest

module _ {F : Type 0} where
  unfoldable pub hop_sent : HopState F → HopState F
  hop_sent h = record h { sent = h.sent +ℤ pos 1; inflight = h.inflight +ℤ pos 1 }

  unfoldable pub hop_unsent : HopState F → HopState F
  hop_unsent h = record h { sent = h.sent -ℤ pos 1; inflight = h.inflight -ℤ pos 1 }

  unfoldable pub hop_settled : HopState F → HopState F
  hop_settled h = record h { inflight = h.inflight -ℤ pos 1 }

  -- hops[ttl-1], behind the guard.
  unfoldable pub at_ttl : ℕ → (HopState F → HopState F) → List (HopState F) → List (HopState F)
  at_ttl ttl f hops = if in_table ttl (length hops) then modify (ttl - 1) f hops else hops

  -- The section of `send` and of `probe` that registers a probe.
  unfoldable pub register : ℕ → ℕ → ℤ → Flight F → Option (Flight F)
  register key ttl now p =
      if in_table ttl (length p.hops)
      then some (record p {
        inflight = insert key (record { ttl = ttl; sent_at = now }) p.inflight;
        hops = modify (ttl - 1) hop_sent p.hops;
      })
      else none

  unfoldable pub give_up : ℤ → Dict Entry → List (HopState F) → List (HopState F)
  give_up cutoff [] hops = hops
  give_up cutoff ((k, e) ∷ m) hops =
      give_up cutoff m (if ltb_ℤ e.sent_at cutoff then at_ttl e.ttl hop_settled hops else hops)

  unfoldable pub prune : ℤ → Flight F → Flight F
  prune cutoff p = record p {
    inflight = kept cutoff p.inflight;
    hops = give_up cutoff p.inflight p.hops;
  }

  -- len(p.hops), or the terminus if that is known and nearer.
  unfoldable pub max_ttl : Flight F → ℕ
  max_ttl p =
      let n = length p.hops in if ltb 0 p.terminus && ltb p.terminus n then p.terminus else n

  -- `rollbackProbe`.
  unfoldable pub rollback_probe : ℕ → ℕ → Flight F → Flight F
  rollback_probe key ttl p = elim (lookup key p.inflight) [
    | none ↦ p
    | some e ↦ record p { inflight = erase key p.inflight; hops = at_ttl ttl hop_unsent p.hops }
  ]

module _ {F : Type 0} (fl : Floats F) where
  -- float64(now.Sub(sentAt)) / float64(time.Millisecond)
  unfoldable pub rtt_ms : ℤ → ℤ → F
  rtt_ms now sent_at = fl.div (fl.of_int (now -ℤ sent_at)) (fl.of_int (pos 1000000))

  unfoldable pub hop_replied : Reply F → HopState F → HopState F
  hop_replied r h = record_reply fl (hop_settled h) r

  -- What a reply does to the hop of a TTL, and to the terminus if it came from the destination.
  unfoldable pub credit : ℕ → Reply F → Flight F → Flight F
  credit ttl r p =
      if in_table ttl (length p.hops)
      then record p {
        hops = modify (ttl - 1) (hop_replied r) p.hops;
        terminus = if r.terminus then nearer ttl p.terminus else p.terminus;
      }
      else p

  -- The section of `recvLoop` for a reply to the probe of a key, from an address.
  unfoldable pub settle : ℕ → Option String → ℤ → Bool → Flight F → Flight F
  settle key from now is_echo p = elim (lookup key p.inflight) [
    | none ↦ p
    | some e ↦
        credit e.ttl (record { from = from; rtt_ms = rtt_ms now e.sent_at; terminus = is_echo })
          (record p { inflight = erase key p.inflight })
  ]

  -- `recordTerminus`.
  unfoldable pub record_terminus : ℕ → ℕ → Option String → F → Flight F → Flight F
  record_terminus key ttl from rtt p = elim (lookup key p.inflight) [
    | none ↦ p
    | some e ↦
        credit ttl (record { from = from; rtt_ms = rtt; terminus = true })
          (record p { inflight = erase key p.inflight })
  ]
