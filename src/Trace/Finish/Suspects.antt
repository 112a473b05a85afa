-- ===== src/Trace/Finish/Suspects.antt =====
-- cmd/dropline/trace.go, internal/agg: which hops a finished test shows as suspect.
use dropline.Prelude.{List, true, if◌then◌else◌, ◌≡◌}
use dropline.Prelude.Int.{ℤ}
use dropline.Prelude.Floats.{Floats}
use dropline.Agg.State.{HopView}
use dropline.Agg.Aggregator.{Aggregator}
use dropline.Agg.Correlate.{SuspectHop}
use dropline.Agg.Merge.{find_ttl}
use dropline.Agg.Merge.Find.{UniqueTtl}
use dropline.Trace.Report.Marked.{is_there}

module _ {F : Type 0} where
  -- What Go ranges over: each entry of the map once, in whatever order.
  abbrev pub IsReordering : (List (SuspectHop F) → List (SuspectHop F)) → Type 0
  IsReordering order =
      (m : List (SuspectHop F))
      → UniqueTtl m
      → UniqueTtl (order m) × ((u : ℤ) → find_ttl u (order m) ≡ find_ttl u m)

  -- A hop that is suspect if it was, or if the list has its TTL.
  abbrev pub flag : List (SuspectHop F) → HopView F → HopView F
  flag ss h = if is_there (find_ttl h.ttl ss) then record h { suspect = true } else h
