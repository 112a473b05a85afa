-- ===== src/Trace/Receive.antt =====
-- cmd/dropline/trace.go: `runRecvLoop`, which passes the server's messages on to the aggregator. What
-- cc.Recv returns comes as a list, of which `none` is an error; behind its end the loop waits.
pub mod Totals
use dropline.Prelude.{String, List, [], ◌∷◌, Option, none, some}
use dropline.Prelude.Int.{ℤ, pos}
use dropline.Prelude.Words.{to_u64}
use dropline.Prelude.Floats.{Floats}
use dropline.Stream.Stats.{Snapshot, no_bursts}
use dropline.Control.Messages.{
  Message, hello, ready, error, stats, final, reverse_hop_update, reverse_tcp_hop_update, tcp_probe,
  Stats, Final,
}
use dropline.Agg.Aggregator.{Aggregator, ingest_stream, ingest_reverse_hop, ingest_reverse_tcp_hop}

pub data Ended (F : Type 0) : Type 0 where
  with_final : Final F → Ended F
  with_reason : String → Ended F
  with_error : Ended F

-- The snapshot that a Stats message is turned into; what the message lacks is 0.
unfoldable pub snapshot_of : {F : Type 0} → Stats F → Snapshot F
snapshot_of m = record {
  t = m.t;
  recv = to_u64 m.recv;
  lost = to_u64 m.loss;
  out_of_order = 0;
  duplicates = 0;
  local_drops = 0;
  kernel_drops = m.kernel_drops;
  max_seq = 0;
  jitter_ms = m.jitter_ms;
  bursts = no_bursts;
}

module _ {F : Type 0} (fl : Floats F) where
  -- The aggregator behind the loop, and how it ended; `none` if it still waits.
  unfoldable pub run_recv_loop :
      Aggregator F → List (Option (Message F)) → Aggregator F × Option (Ended F)
  run_recv_loop a [] = (a, none)
  run_recv_loop a (none ∷ msgs) = (a, some with_error)
  run_recv_loop a (some (stats m) ∷ msgs) = run_recv_loop (ingest_stream fl a (snapshot_of m)) msgs
  run_recv_loop a (some (final m) ∷ msgs) = (a, some (with_final m))
  run_recv_loop a (some (error m) ∷ msgs) = (a, some (with_reason m.reason))
  run_recv_loop a (some (reverse_hop_update m) ∷ msgs) =
      run_recv_loop (ingest_reverse_hop fl a m) msgs
  run_recv_loop a (some (reverse_tcp_hop_update m) ∷ msgs) =
      run_recv_loop (ingest_reverse_tcp_hop fl a m) msgs
  run_recv_loop a (some (hello m) ∷ msgs) = run_recv_loop a msgs
  run_recv_loop a (some (ready m) ∷ msgs) = run_recv_loop a msgs
  run_recv_loop a (some (tcp_probe m) ∷ msgs) = run_recv_loop a msgs
