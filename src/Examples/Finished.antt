-- ===== src/Examples/Finished.antt =====
-- cmd/dropline/trace.go: the report on a test with one second of loss, in which hop 2 was slow.
use dropline.Prelude.{List, [], ◌∷◌, none}
use dropline.Prelude.Int.{ℤ, pos}
use dropline.Agg.Aggregator.{Aggregator, new}
use dropline.Agg.Correlate.{SuspectHop, rtt_spike}
use dropline.Examples.Numbers.{numbers}
use dropline.Examples.Suspects.{table, timeline}

abbrev finished : Aggregator ℤ
finished = record (new numbers (pos 0) none) { hops = table; buckets = timeline }

abbrev slow : List (SuspectHop ℤ)
slow =
    record { ttl = pos 2; confidence = pos 1; evidence = rtt_spike (pos 23) 1 1; source = "icmp" }
    ∷ []
