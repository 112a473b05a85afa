-- ===== src/Probe/Prober.antt =====
-- internal/probe/probe_unix.go: the ICMP prober. Its goroutines take turns in any order, which is
-- that of the steps of Prober/Run: a sweep sends its probes one by one, `recvLoop` takes a packet
-- between any two of them, `emit` prunes behind each sweep. The socket's calls are left out: an
-- error of a send comes in as a value, and what it reads as a list of bytes with the peer.
pub mod Run
pub mod Blackout
use dropline.Prelude.{
  ℕ, zero, suc, ◌+◌, ◌%◌, ◌^◌, String, List, [], ◌∷◌, Bool, true, false, not, ◌&&◌, ◌||◌, Option,
  none, some, length, ltb, ◌==◌, if◌then◌else◌,
}
use dropline.Prelude.Int.{ℤ, pos, pos_part, ltb_ℤ, leb_ℤ, eqb_ℤ, ◌+ℤ◌, ◌-ℤ◌}
use dropline.Prelude.Floats.{Floats}
use dropline.Stream.Net.{Ip, to4}
use dropline.Probe.Hops.{ProbeSnapshot}
use dropline.Probe.HopState.{HopState, loss_timeout, build_snapshot}
use dropline.Probe.Parse.{Message, Answer, parse_reply}
use dropline.Probe.Flight.{Flight, register, settle, prune, max_ttl}

-- `none` is a nil target.
pub record Config : Type 0 where
  pub target : Option Ip
  pub mtr_interval : ℤ
  pub max_hops : ℤ

pub data ConfigError : Type 0 where
  nil_target : ConfigError
  ipv6_target : ConfigError
  hops_out_of_range : ConfigError
  interval_not_positive : ConfigError
  port_not_positive : ConfigError

unfoldable pub is_v4 : Ip → Bool
is_v4 ip = elim (to4 ip) [ none ↦ false | some ip4 ↦ true ]

-- The checks at the head of `New`, and of `NewTCP` but for the port; `none` if all pass.
unfoldable pub validate_config : Config → Option ConfigError
validate_config cfg = elim cfg.target [
  | none ↦ some nil_target
  | some ip ↦
      if is_v4 ip
      then if ltb_ℤ cfg.max_hops (pos 1) || ltb_ℤ (pos 255) cfg.max_hops
        then some hops_out_of_range
        else if leb_ℤ cfg.mtr_interval (pos 0)
        then some interval_not_positive
        else none
      else some ipv6_target
]

pub record Prober (F : Type 0) : Type 0 where
  pub id : ℕ
  pub next_seq : ℕ
  pub flight : Flight F

-- probeIDCounter.Add(1) & 0xffff, and the counter that it leaves.
unfoldable pub next_probe_id : ℕ → ℕ × ℕ
next_probe_id counter = let c = (counter + 1) % 2 ^ 32 in (c % 2 ^ 16, c)

-- p.nextSeq++ on a uint16, which goes on at 1 behind the last.
unfoldable pub seq_after : ℕ → ℕ
seq_after seq = let next = (seq + 1) % 2 ^ 16 in if next == 0 then 1 else next

unfoldable pub copies {ℓ} : {A : Type ℓ} → ℕ → A → List A
copies zero a = []
copies (suc n) a = a ∷ copies n a

-- for ttl := low; ttl < low + n; ttl++
unfoldable pub ttls_from : ℕ → ℕ → List ℕ
ttls_from low zero = []
ttls_from low (suc n) = low ∷ ttls_from (suc low) n

abbrev pub send_err_backoff_threshold : ℕ
send_err_backoff_threshold = 5

-- The count of sweeps in a row whose every send failed, over a sweep behind the first; `none` is
-- the error of `Run`.
unfoldable pub after_sweep : ℕ → Bool → Option ℕ
after_sweep consec_bad_sweeps all_failed =
    if all_failed
    then (let c = consec_bad_sweeps + 1 in
        if ltb send_err_backoff_threshold c then none else some c)
    else some 0

-- The first sweep of `Run`, whose count is not tested.
unfoldable pub first_sweep : Bool → ℕ
first_sweep all_failed = if all_failed then 1 else 0

-- The sweeps of `Run` behind the first: `none` once it has returned the error.
unfoldable pub run_sweeps : ℕ → List Bool → Option ℕ
run_sweeps c [] = some c
run_sweeps c (failed ∷ sweeps) = elim (after_sweep c failed) [
  | none ↦ none
  | some c' ↦ run_sweeps c' sweeps
]

-- `Run` over the sweeps of a prober, each given by whether all its sends failed.
unfoldable pub run_loop : List Bool → Option ℕ
run_loop [] = some 0
run_loop (failed ∷ sweeps) = run_sweeps (first_sweep failed) sweeps

-- The sends of a sweep that failed.
unfoldable pub failures : List Bool → ℕ
failures [] = 0
failures (failed ∷ rest) = (if failed then 1 else 0) + failures rest

-- maxTTL > 0 && failures == maxTTL, for the errors of the sends in their order.
unfoldable pub all_failed : List Bool → Bool
all_failed sends = ltb 0 (length sends) && failures sends == length sends

module _ {F : Type 0} where
  -- The section of `send` under the mutex.
  unfoldable pub send : ℤ → ℕ → Prober F → Option (Prober F)
  send now ttl p = elim (register p.next_seq ttl now p.flight) [
    | none ↦ none
    | some flight ↦ some (record p { next_seq = seq_after p.next_seq; flight = flight })
  ]

  -- The TTLs that a sweep sends to.
  unfoldable pub sweep_ttls : Prober F → List ℕ
  sweep_ttls p = ttls_from 1 (max_ttl p.flight)

module _ {F : Type 0} (fl : Floats F) where
  unfoldable pub new_hop : HopState F
  new_hop =
      let z = fl.of_int (pos 0) in
      record {
        addr = none;
        sent = pos 0;
        recv = pos 0;
        inflight = pos 0;
        last = z;
        best = z;
        worst = z;
        mean = z;
        m2 = z;
        ewma = z;
        ewma_init = false;
        terminus = false;
      }

  unfoldable pub new_flight : ℕ → Flight F
  new_flight max_hops = record { inflight = []; hops = copies max_hops new_hop; terminus = 0 }

  -- What `New` builds of a config that it accepts.
  unfoldable pub new_prober : Config → ℕ → Prober F
  new_prober cfg id = record { id = id; next_seq = 1; flight = new_flight (pos_part cfg.max_hops) }

  -- What `recvLoop` does with a reply that is for this prober. `text` is net.IP's text, `none` for
  -- nil.
  unfoldable pub take_answer : (Ip → Option String) → ℤ → Answer → Prober F → Prober F
  take_answer text now Answer.ignored p = p
  take_answer text now (Answer.exceeded seq src) p = record p {
    flight = settle fl seq (text src) now false p.flight;
  }
  take_answer text now (Answer.echoed seq src) p = record p {
    flight = settle fl seq (text src) now true p.flight;
  }

  unfoldable pub receive :
      (List ℕ → Option Message) → (Ip → Option String) → ℤ → List ℕ → Ip → Prober F → Prober F
  receive parse text now packet src p = take_answer text now (parse_reply parse packet src p.id) p

  -- `emit`: the pruned prober, and the snapshot if there is a channel for it; `none` for a panic.
  unfoldable pub emit : ℤ → Bool → ℤ → ℤ → Prober F → Option (Prober F × Option (ProbeSnapshot F))
  emit mtr_interval has_out now at p =
      let flight = prune (now -ℤ loss_timeout mtr_interval) p.flight in
      let pruned = record p { flight = flight } in
      if not has_out
      then some (pruned, none)
      else elim (build_snapshot fl flight.hops flight.terminus at) [
        | none ↦ none
        | some snap ↦ some (pruned, some snap)
      ]
