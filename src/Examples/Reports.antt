-- ===== src/Examples/Reports.antt =====
-- cmd/dropline: the end of a test in which one of four packets was lost.
use dropline.Prelude.{ℕ, ◌-◌, List, [], ◌∷◌, length, contains, Option, none, some, ◌≡◌, refl, arith}
use dropline.Prelude.Int.{ℤ, pos, ◌+ℤ◌}
use dropline.Control.Messages.{Message, stats, final, Stats, FinalStats, Final}
use dropline.Stream.Stats.{
  Accumulator, snapshot, new_accumulator, no_bursts, observe_all, observe_seq, rejects, account,
  remember, first_packet, in_order, late, record_burst, count_burst,
}
use dropline.Stream.Stats.Conservation.{received}
use dropline.Stream.Stats.Missing.{missing}
use dropline.Serve.Final.{build_final}
use dropline.Serve.Final.Exact.{build_final_exact}
use dropline.Agg.State.{StreamView}
use dropline.Agg.Aggregator.{new}
use dropline.Agg.Timeline.Totals.{sum_recv, sum_lost}
use dropline.Report.{ReverseStreamReport}
use dropline.Trace.Receive.{run_recv_loop}
use dropline.Trace.Receive.Totals.{run_recv_loop-totals, last_stats}
use dropline.Trace.Report.{reverse_stream_report}
use dropline.Trace.Report.Reverse.{reverse_stream_report_exact}
use dropline.Examples.Numbers.{numbers}
use dropline.Examples.Streams.{arrivals}
use dropline.Examples.Sessions

abbrev counted : Accumulator ℤ
counted = record (new_accumulator ⦃fl = numbers⦄ (pos 0)) { counts = received arrivals }

abbrev pub ended : Final ℤ
ended =
    build_final numbers Sessions.hello (snapshot ⦃fl = numbers⦄ counted (pos 9)) (some (pos 5)) none

-- What is next behind the packets 0, 3 and 1.
next_four : (received arrivals).expected_seq ≡ 4
unfolding observe_all observe_seq rejects contains account remember first_packet in_order late
    record_burst count_burst
next_four = refl

build_final_exact_example :
    (ended.stats.sent ≡ pos (received arrivals).expected_seq)
    × (ended.stats.sent ≡ ended.stats.recv +ℤ ended.stats.loss)
    × (ended.stats.recv ≡ pos (length (received arrivals).seen))
    × (ended.stats.loss ≡ pos (missing (received arrivals).expected_seq (received arrivals).seen))
build_final_exact_example =
    build_final_exact numbers Sessions.hello counted (pos 9) arrivals (some (pos 5)) none
      (omega arith) refl (omega (arith, next_four))

abbrev tick : ℕ → ℕ → ℕ → Stats ℤ
tick t recv loss = record {
  type = "stats";
  t = pos t;
  recv = pos recv;
  loss = pos loss;
  jitter_ms = pos 0;
  kernel_drops = pos 0;
}

-- A late packet takes a loss back; the message behind the Final is not read.
abbrev messages : List (Option (Message ℤ))
messages =
    some (stats (tick 1 10 2))
    ∷ some (stats (tick 2 20 1))
    ∷ some (final ended)
    ∷ some (stats (tick 3 0 0))
    ∷ []

run_recv_loop-totals_example :
    (pos (sum_recv (run_recv_loop numbers (new numbers (pos 0) none) messages).0.buckets)
      ≡ (last_stats (pos 0, pos 0) messages).0)
    × (pos (sum_lost (run_recv_loop numbers (new numbers (pos 0) none) messages).0.buckets)
        ≡ (last_stats (pos 0, pos 0) messages).1)
run_recv_loop-totals_example = run_recv_loop-totals numbers (pos 0) none messages (
  omega arith,
  omega arith,
  omega arith,
  omega arith,
  (omega arith, omega arith, omega arith, omega arith, tt),
)

-- The client's view of the same packets on the way back, of which the server has sent six.
abbrev view : StreamView ℤ
view = record {
  recv = (received arrivals).recv;
  lost = (received arrivals).lost;
  out_of_order = 1;
  duplicates = 1;
  local_drops = 0;
  kernel_drops = pos 0;
  jitter_ms = pos 0;
  max_seq = 3;
  bursts = no_bursts;
  loss_pct = pos 0;
}

abbrev told : FinalStats ℤ
told = record ended.stats { reverse_sent = pos 6 }

reverse_stream_report_exact_example :
    (out : ReverseStreamReport ℤ) × (reverse_stream_report numbers (some view) (some told)
      ≡ some out)
    × (out.recv ≡ pos (length (received arrivals).seen))
    × (out.lost ≡ pos (6 - length (received arrivals).seen))
    × (out.sent ≡ out.recv +ℤ out.lost)
reverse_stream_report_exact_example =
    reverse_stream_report_exact numbers view told arrivals 6 (omega arith) refl refl refl
      (omega (arith, next_four)) (omega arith)
