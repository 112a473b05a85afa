-- ===== src/Agg/Aggregator/Events.antt =====
-- internal/agg/aggregator.go: the calls that the aggregator gets, as values, and runs of them. Its
-- mutex puts the calls of all goroutines into one order, which is the order of the list.
use dropline.Prelude.{ℕ, String, List, [], ◌∷◌}
use dropline.Prelude.Int.{ℤ}
use dropline.Prelude.Floats.{Floats}
use dropline.Stream.Stats.{Snapshot}
use dropline.Probe.Hops.{ProbeSnapshot, TcpSnapshot}
use dropline.Control.Messages.{ReverseHopUpdate, ReverseTcpHopUpdate}
use dropline.Agg.Aggregator.{
  Aggregator, ingest_stream, ingest_reverse_stream, ingest_tcp_info,
  mark_tcp_corroborate_unsupported, ingest_forward_hop, ingest_forward_tcp_hop,
  ingest_reverse_tcp_hop, ingest_reverse_hop, mark_suspects, mark_tcp_suspects, reset,
  set_reverse_path_status,
}

pub data Call (F : Type 0) : Type 0 where
  stream reverse_stream : Snapshot F → Call F
  tcp_info : ℕ → ℕ → ℕ → ℕ → Call F
  tcp_unsupported : Call F
  forward_hop : ProbeSnapshot F → Call F
  forward_tcp_hop : TcpSnapshot F → Call F
  reverse_hop : ReverseHopUpdate F → Call F
  reverse_tcp_hop : ReverseTcpHopUpdate F → Call F
  suspects tcp_suspects : List ℤ → Call F
  rearm : Call F
  path_status : String → Call F

module _ {F : Type 0} (fl : Floats F) where
  unfoldable pub call : Aggregator F → Call F → Aggregator F
  call a (stream s) = ingest_stream fl a s
  call a (reverse_stream s) = ingest_reverse_stream fl a s
  call a (tcp_info retrans out rtt min_rtt) = ingest_tcp_info fl a retrans out rtt min_rtt
  call a tcp_unsupported = mark_tcp_corroborate_unsupported fl a
  call a (forward_hop s) = ingest_forward_hop fl a s
  call a (forward_tcp_hop s) = ingest_forward_tcp_hop fl a s
  call a (reverse_hop u) = ingest_reverse_hop fl a u
  call a (reverse_tcp_hop u) = ingest_reverse_tcp_hop fl a u
  call a (suspects ttls) = mark_suspects fl a ttls
  call a (tcp_suspects ttls) = mark_tcp_suspects fl a ttls
  call a rearm = reset fl a
  call a (path_status s) = set_reverse_path_status fl a s

  unfoldable pub run : Aggregator F → List (Call F) → Aggregator F
  run a [] = a
  run a (c ∷ cs) = run (call a c) cs
