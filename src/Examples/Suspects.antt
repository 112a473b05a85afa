-- ===== src/Examples/Suspects.antt =====
-- internal/agg: a test with one second of loss, in which hop 2 is slow.
use dropline.Prelude.{ℕ, List, [], ◌∷◌, some, false, All, ◌≡◌, refl, arith}
use dropline.Prelude.Int.{ℤ, pos, ◌/ℤ◌}
use dropline.Agg.State.{Bucket, HopView}
use dropline.Agg.Correlate.{
  SuspectHop, score_of, init_scores, tally, fresh_score, correlate_impl, q95,
}
use dropline.Agg.Correlate.Tally.{tally_reference, with_hits, rtt_count, loss_count, samples}
use dropline.Agg.Correlate.Ranking.{correlate_impl-IsRanked, IsRanked, IsSound, HasRanks}
use dropline.Examples.Numbers.{numbers, ltb_ℤ-asym}

abbrev hop : ℕ → ℕ → HopView ℤ
hop t rtt = record {
  ttl = pos t;
  ip = "192.0.2.1";
  sent = pos 4;
  recv = pos 4;
  last_rtt_ms = pos rtt;
  best_rtt_ms = pos 9;
  worst_rtt_ms = pos 90;
  avg_rtt_ms = pos 20;
  std_dev_rtt_ms = pos 1;
  baseline_rtt_ms = pos 20;
  loss_pct = pos 0;
  terminus = false;
  suspect = false;
}

abbrev pub table : List (HopView ℤ)
table = hop 1 10 ∷ hop 2 20 ∷ []

abbrev second : ℕ → ℕ → List (HopView ℤ) → Bucket ℤ
second t lost hops = record {
  t = t;
  stream_recv = 100;
  stream_lost = lost;
  stream_loss_pct = pos lost;
  hops = hops;
  tcp_hops = [];
}

abbrev pub timeline : List (Bucket ℤ)
timeline = second 1 0 table ∷ second 2 30 (hop 1 10 ∷ hop 2 80 ∷ []) ∷ []

q95-HasRanks : HasRanks numbers (q95 numbers)
unfolding q95 ◌/ℤ◌
q95-HasRanks n = (omega arith, omega arith)

correlate_impl-IsRanked_example :
    (out : List (SuspectHop ℤ)) × (correlate_impl numbers (λ b. b.hops) "icmp" timeline table
      ≡ some out)
    × IsRanked numbers out
    × All (IsSound numbers "icmp" table) out
correlate_impl-IsRanked_example =
    correlate_impl-IsRanked numbers (λ b. b.hops) "icmp" timeline table ltb_ℤ-asym q95-HasRanks

tally_reference_example :
    score_of (pos 2) (tally numbers (λ b. b.hops) (init_scores numbers [] table) timeline)
    ≡ some (
        with_hits
          (fresh_score numbers (hop 2 20) [])
          (rtt_count numbers
            (pos 2)
            (fresh_score numbers (hop 2 20) [])
            (samples numbers (λ b. b.hops) timeline))
          (loss_count numbers
            (pos 2)
            (fresh_score numbers (hop 2 20) [])
            (samples numbers (λ b. b.hops) timeline)))
tally_reference_example =
    tally_reference numbers (λ b. b.hops) timeline (hop 1 10 ∷ []) (hop 2 20) [] refl tt
