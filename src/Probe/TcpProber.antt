-- ===== src/Probe/TcpProber.antt =====
-- internal/probe/probe_tcp_unix.go: the TCP prober's source ports and the life of one of its
-- probes. A dial is a parameter: what it returns comes in as a value. The compare-and-swap loop of
-- the port cursor is the one step that succeeds. The critical sections of `probe` are functions of
-- their own; that another goroutine comes in between them is not modelled.
pub mod Ports
pub mod Ranges
pub mod Life
use dropline.Prelude.{
  ℕ, zero, suc, ◌+◌, ◌-◌, ◌*◌, ◌/◌, ◌%◌, ◌^◌, String, List, [], ◌∷◌, Bool, true, false, not, ◌&&◌,
  ◌||◌, Option, none, some, length, ltb, ◌==◌, if◌then◌else◌,
}
use dropline.Prelude.Int.{ℤ, pos, pos_part, ◌-ℤ◌}
use dropline.Prelude.Dict.{Dict, lookup, erase}
use dropline.Prelude.Floats.{Floats}
use dropline.Stream.Net.{Ip}
use dropline.Probe.Hops.{TcpSnapshot}
use dropline.Probe.HopState.{loss_timeout, build_snapshot}
use dropline.Probe.Parse.{Message, TcpAnswer, parse_tcp_reply}
use dropline.Probe.Flight.{Entry, Flight, register, settle, record_terminus, rollback_probe, prune}
use dropline.Probe.Prober.{Config, ConfigError, validate_config, port_not_positive, new_flight}

abbrev pub tcp_probe_port_base : ℕ
tcp_probe_port_base = 33434

abbrev pub tcp_probe_range_factor : ℕ
tcp_probe_range_factor = 4

abbrev pub tcp_port_cap_ports : ℕ
tcp_port_cap_ports = 65535 - tcp_probe_port_base - 1024

-- The sweeps that start within the loss window of an interval above 0, rounded up, with one more,
-- and at least four.
unfoldable pub sweeps_per_window : ℕ → ℕ
sweeps_per_window mtr_interval =
    let lt = pos_part (loss_timeout (pos mtr_interval)) in
    let whole = lt / mtr_interval in
    let sweeps = (if ltb 0 (lt % mtr_interval) then whole + 1 else whole) + 1 in
    if ltb sweeps tcp_probe_range_factor then tcp_probe_range_factor else sweeps

-- `computeTCPRangeSize`, in uint32.
unfoldable pub compute_tcp_range_size : ℕ → ℕ → ℕ
compute_tcp_range_size mtr_interval max_hops =
    let r = max_hops % 2 ^ 32 * (sweeps_per_window mtr_interval % 2 ^ 32) % 2 ^ 32 in
    if r == 0 then tcp_probe_range_factor else r

-- `nextTCPSrcPortBase`, at a cursor: the first port of the range, and the cursor that is left.
unfoldable pub claim : ℕ → ℕ → ℕ × ℕ
claim range cur =
    let size = if range == 0 then tcp_probe_range_factor else range in
    let offset = cur % tcp_port_cap_ports in
    if ltb tcp_port_cap_ports ((offset + size) % 2 ^ 32)
    then (
      (tcp_probe_port_base + 0) % 2 ^ 16,
      ((cur / tcp_port_cap_ports + 1) * tcp_port_cap_ports % 2 ^ 32 + size) % 2 ^ 32,
    )
    else ((tcp_probe_port_base + offset) % 2 ^ 16, (cur + size) % 2 ^ 32)

-- The check of `NewTCP` on its port, behind those that it shares with `New`.
unfoldable pub validate_tcp_config : Config → ℕ → Option ConfigError
validate_tcp_config cfg port = elim (validate_config cfg) [
  | some e ↦ some e
  | none ↦ if port == 0 then some port_not_positive else none
]

pub record TcpProber (F : Type 0) : Type 0 where
  pub src_port_base : ℕ
  pub src_port_range : ℕ
  pub port_cursor : ℕ
  pub flight : Flight F

-- The port of a slot.
unfoldable pub port_at : ℕ → ℕ → ℕ → ℕ
port_at base range cursor = (base + cursor % range) % 2 ^ 16

-- The loop of `nextSrcPort` with so many slots left to try: the port if one is found, and the
-- cursor.
unfoldable pub find_port : ℕ → ℕ → ℕ → ℕ → Dict Entry → Option ℕ × ℕ
find_port zero base range cursor m = (none, cursor)
find_port (suc left) base range cursor m = elim (lookup (port_at base range cursor) m) [
  | none ↦ (some (port_at base range cursor), (cursor + 1) % 2 ^ 32)
  | some e ↦ find_port left base range ((cursor + 1) % 2 ^ 32) m
]

-- The errno values that the prober tells apart; the others are one.
pub data Errno : Type 0 where
  conn_refused : Errno
  conn_reset : Errno
  addr_in_use : Errno
  addr_not_avail : Errno
  perm : Errno
  acces : Errno
  no_proto_opt : Errno
  another : Errno

-- What a dial returns: a connection, an error with an errno in its chain, or one without.
pub data Dial : Type 0 where
  connected : Dial
  errno : Errno → Dial
  failed : Dial

unfoldable pub is_tcp_terminus_error : Dial → Bool
is_tcp_terminus_error (errno conn_refused) = true
is_tcp_terminus_error (errno conn_reset) = true
is_tcp_terminus_error d = false

unfoldable pub is_bind_collision_error : Dial → Bool
is_bind_collision_error (errno addr_in_use) = true
is_bind_collision_error (errno addr_not_avail) = true
is_bind_collision_error d = false

unfoldable pub is_control_setup_error : Dial → Bool
is_control_setup_error (errno perm) = true
is_control_setup_error (errno acces) = true
is_control_setup_error (errno no_proto_opt) = true
is_control_setup_error d = false

unfoldable pub is_connected : Dial → Bool
is_connected connected = true
is_connected (errno e) = false
is_connected failed = false

module _ {F : Type 0} where
  unfoldable pub next_src_port : TcpProber F → Option ℕ × TcpProber F
  next_src_port p =
      let (port, cursor) =
        find_port p.src_port_range p.src_port_base p.src_port_range p.port_cursor
          p.flight.inflight in
      (port, record p { port_cursor = cursor })

  -- The section of `probe` that registers the port which it was given.
  unfoldable pub start_probe : ℕ → ℕ → ℤ → TcpProber F → Option (TcpProber F)
  start_probe port ttl now p = elim (register port ttl now p.flight) [
    | none ↦ none
    | some flight ↦ some (record p { flight = flight })
  ]

module _ {F : Type 0} (fl : Floats F) where
  -- What `NewTCP` builds, at a cursor of the process, with the cursor that is left.
  unfoldable pub new_tcp : Config → ℕ → TcpProber F × ℕ
  new_tcp cfg cur =
      let range = compute_tcp_range_size (pos_part cfg.mtr_interval) (pos_part cfg.max_hops) in
      let (base, cur') = claim range cur in
      (
        record {
          src_port_base = base;
          src_port_range = range;
          port_cursor = 0;
          flight = new_flight fl (pos_part cfg.max_hops);
        },
        cur',
      )

  -- What `probe` makes of its dial: the prober, and whether the probe returns an error.
  unfoldable pub finish_probe : ℕ → ℕ → Option String → F → Dial → TcpProber F → TcpProber F × Bool
  finish_probe port ttl target rtt dial p =
      if is_connected dial
      then (record p { flight = record_terminus fl port ttl target rtt p.flight }, false)
      else if is_tcp_terminus_error dial
      then (record p { flight = record_terminus fl port ttl target rtt p.flight }, false)
      else if is_bind_collision_error dial
      then (record p { flight = rollback_probe port ttl p.flight }, true)
      else if is_control_setup_error dial
      then (record p { flight = rollback_probe port ttl p.flight }, true)
      else (p, false)

  -- What `recvLoop` does with a reply that is for this prober.
  unfoldable pub take_tcp_answer : (Ip → Option String) → ℤ → TcpAnswer → TcpProber F → TcpProber F
  take_tcp_answer text now TcpAnswer.ignored p = p
  take_tcp_answer text now (TcpAnswer.exceeded src_port src) p = record p {
    flight = settle fl src_port (text src) now false p.flight;
  }

  unfoldable pub receive_tcp :
      (List ℕ → Option Message)
      → (Ip → Option String)
      → Ip
      → ℕ
      → ℤ
      → List ℕ
      → Ip
      → TcpProber F
      → TcpProber F
  receive_tcp parse text target port now packet src p =
      take_tcp_answer text now (parse_tcp_reply parse packet src target port) p

  unfoldable pub emit_tcp :
      ℤ → ℕ → Bool → ℤ → ℤ → TcpProber F → Option (TcpProber F × Option (TcpSnapshot F))
  emit_tcp mtr_interval port has_out now at p =
      let flight = prune (now -ℤ loss_timeout mtr_interval) p.flight in
      let pruned = record p { flight = flight } in
      if not has_out
      then some (pruned, none)
      else elim (build_snapshot fl flight.hops flight.terminus at) [
        | none ↦ none
        | some snap ↦
            some
              (pruned, some (record { at = at; supported = true; port = port; hops = snap.hops }))
      ]
