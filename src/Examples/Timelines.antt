-- ===== src/Examples/Timelines.antt =====
-- internal/agg: a timeline with a loss that a late packet takes back, and a reverse path that ends
-- at a NAT. The floats are whole numbers here.
use dropline.Prelude.{ℕ, ◌+◌, List, [], ◌∷◌, none, some, ◌&&◌, All, ◌≡◌, arith, if◌then◌else◌}
use dropline.Prelude.Int.{ℤ, pos, ltb_ℤ, eqb_ℤ}
use dropline.Stream.Stats.{Snapshot, no_bursts}
use dropline.Control.Messages.{ReverseHopUpdate}
use dropline.Agg.State.{Bucket}
use dropline.Agg.Timeline.{place, bucket_at, empty_bucket}
use dropline.Agg.Timeline.Order.{IsAscending, times, bucket_at-place}
use dropline.Agg.Timeline.Totals.{sum_recv, sum_lost}
use dropline.Agg.Timeline.Percent.{IsConsistent}
use dropline.Agg.Aggregator.{Aggregator, new, state_snapshot, ingest_reverse_hop}
use dropline.Agg.HopTables.{reverse_view}
use dropline.Agg.Aggregator.Events.{Call, stream, reverse_hop, run}
use dropline.Agg.Aggregator.History.{timeline_exact, timeline_ordered}
use dropline.Agg.Aggregator.Steps.{recv_of, lost_of, last_stream}
use dropline.Agg.Aggregator.Tables.{row}
use dropline.Examples.Numbers.{numbers}
use dropline.Agg.Aggregator.Published.{published_row}

abbrev counted : ℕ → ℕ → ℕ → Snapshot ℤ
counted t recv lost = record {
  t = pos t;
  recv = recv;
  lost = lost;
  out_of_order = 0;
  duplicates = 0;
  local_drops = 0;
  kernel_drops = pos 0;
  max_seq = recv + lost;
  jitter_ms = pos 0;
  bursts = no_bursts;
}

abbrev update : ReverseHopUpdate ℤ
update = record {
  type = "reverse_hop_update";
  ttl = pos 3;
  addr = "192.0.2.1";
  rtt_ms = pos 20;
  loss_pct = pos 0;
  terminus = "nat";
  sent = pos 4;
  recv = pos 4;
  best_rtt_ms = pos 19;
  worst_rtt_ms = pos 21;
  avg_rtt_ms = pos 20;
  std_dev_rtt_ms = pos 1;
  baseline_rtt_ms = pos 20;
  max_ttl = pos 3;
}

-- Two lost in second 1, of which one comes late in second 2.
abbrev calls : List (Call ℤ)
calls = stream (counted 1 10 2) ∷ reverse_hop update ∷ stream (counted 2 20 1) ∷ []

abbrev fresh : Aggregator ℤ
fresh = new numbers (pos 0) none

timeline_exact_example :
    (sum_recv (run numbers fresh calls).buckets ≡ recv_of (last_stream none calls))
    × (sum_lost (run numbers fresh calls).buckets ≡ lost_of (last_stream none calls))
timeline_exact_example =
    timeline_exact numbers (pos 0) none calls
      (omega arith, omega arith, omega arith, (omega arith, omega arith, omega arith, tt))

timeline_ordered_example :
    IsAscending 0 (times (run numbers fresh calls).buckets)
    × All (IsConsistent numbers) (run numbers fresh calls).buckets
timeline_ordered_example = timeline_ordered numbers (pos 0) none calls

abbrev seconds : List (Bucket ℤ)
seconds = empty_bucket numbers 1 ∷ empty_bucket numbers 4 ∷ []

seconds-IsAscending : IsAscending 0 (times seconds)
unfolding empty_bucket
seconds-IsAscending = (omega arith, (omega arith, tt))

bucket_at-place_example : bucket_at numbers 3 seconds ≡ place numbers 3 seconds
bucket_at-place_example = bucket_at-place numbers 0 3 seconds seconds-IsAscending

published_row_example :
    row
      (pos 3)
      (state_snapshot numbers
        (ingest_reverse_hop numbers (run numbers fresh calls) update)).latest_reverse_hops
    ≡ (if ltb_ℤ (pos 0) (pos 3) && ltb_ℤ (pos 3) (pos 3)
        then none
        else if eqb_ℤ (pos 3) (pos 3)
        then some (reverse_view update)
        else row (pos 3) (state_snapshot numbers (run numbers fresh calls)).latest_reverse_hops)
published_row_example = published_row numbers (pos 0) none calls update (pos 3)
