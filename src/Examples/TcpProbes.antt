-- ===== src/Examples/TcpProbes.antt =====
-- internal/probe: a TCP prober of two hops, its port search, and a probe whose port is refused.
use dropline.Prelude.{
  ℕ, ◌+◌, ◌<◌, ◌&&◌, String, List, [], ◌∷◌, Option, none, some, if◌then◌else◌, ◌≡◌, refl, arith,
}
use dropline.Prelude.Int.{ℤ, pos}
use dropline.Prelude.Dict.{lookup}
use dropline.Stream.Net.{Ip}
use dropline.Probe.Parse.{Message}
use dropline.Probe.Flight.{Entry, in_table, register}
use dropline.Probe.Flight.Balance.{one_if}
use dropline.Probe.Flight.Keeps.{IsBalanced}
use dropline.Probe.Prober.{new_flight, new_hop, copies}
use dropline.Probe.TcpProber.{
  TcpProber, errno, addr_in_use, next_src_port, start_probe, finish_probe,
}
use dropline.Probe.TcpProber.Ports.{next_src_port_lem}
use dropline.Probe.TcpProber.Life.{never_sent, is_some, receive_all, probe-IsBalanced}
use dropline.Examples.Numbers.{numbers}

abbrev entry : Entry
entry = record { ttl = 1; sent_at = pos 1000 }

abbrev busy_start : TcpProber ℤ
busy_start = record {
  src_port_base = 33434;
  src_port_range = 8;
  port_cursor = 6;
  flight = record (new_flight numbers 2) { inflight = (33440, entry) ∷ (33441, entry) ∷ [] };
}

next_src_port_example :
    (k : ℕ) × (k < 8)
    × ((next_src_port busy_start).0 ≡ some (33434 + k))
    × (lookup (33434 + k) busy_start.flight.inflight ≡ none)
unfolding lookup
next_src_port_example =
    next_src_port_lem busy_start 3 (omega arith) (omega arith) (omega arith) free
  where
    free : lookup (33434 + 3) busy_start.flight.inflight ≡ none
    free = refl

abbrev at_rest : TcpProber ℤ
at_rest = record {
  src_port_base = 33434;
  src_port_range = 8;
  port_cursor = 0;
  flight = new_flight numbers 2;
}

at_rest-IsBalanced : IsBalanced 2 (λ t. 0) at_rest.flight
unfolding new_flight copies new_hop
at_rest-IsBalanced = record {
  hop_count = refl;
  unique = tt;
  within = tt;
  balanced = ((0, refl, refl, refl, omega arith), ((0, refl, refl, refl, omega arith), tt));
  near = omega arith;
}

abbrev or_same : TcpProber ℤ → Option (TcpProber ℤ) → TcpProber ℤ
or_same p none = p
or_same p (some p') = p'

abbrev started : TcpProber ℤ
started = or_same at_rest (start_probe 33434 2 (pos 1000) at_rest)

started_lem : start_probe 33434 2 (pos 1000) at_rest ≡ some started
unfolding start_probe register in_table new_flight copies
started_lem = refl

abbrev no_message : List ℕ → Option Message
no_message buf = none

abbrev text : Ip → Option String
text ip = some "203.0.113.9"

abbrev target : Ip
target = 203 ∷ 0 ∷ 113 ∷ 9 ∷ []

abbrev packets : List (ℤ × List ℕ × Ip)
packets = (pos 2000, 1 ∷ 2 ∷ [], target) ∷ []

abbrev after : TcpProber ℤ
after = receive_all numbers no_message text target 443 packets started

probe-IsBalanced_example :
    IsBalanced 2
      (λ t.
        if never_sent (errno addr_in_use) && is_some (lookup 33434 after.flight.inflight)
        then 0
        else one_if 2 t + 0)
      (finish_probe numbers 33434 2 (text target) (pos 5) (errno addr_in_use) after).0.flight
    × ((finish_probe numbers 33434 2 (text target) (pos 5) (errno addr_in_use) after).1
        ≡ never_sent (errno addr_in_use))
probe-IsBalanced_example =
    probe-IsBalanced numbers no_message text target 443 33434 2 (pos 1000) packets (pos 5)
      (errno addr_in_use) at_rest at_rest-IsBalanced (unfold lookup new_flight in refl) started_lem
