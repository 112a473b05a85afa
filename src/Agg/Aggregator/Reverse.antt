-- ===== src/Agg/Aggregator/Reverse.antt =====
-- internal/agg/aggregator.go: the reverse path: its status and its hop table, over every run.
use dropline.Prelude.{
  String, str_eq, List, [], ◌∷◌, Bool, true, false, ◌&&◌, ◌||◌, ◌≡◌, refl, ◌∙◌, arith,
  if◌then◌else◌,
}
use dropline.Prelude.Floats.{Floats}
use dropline.Control.Messages.{reverse_status_ok, reverse_status_terminated_at_nat}
use dropline.Agg.Aggregator.{
  Aggregator, escalate, publish_at, publish_last, ingest_stream, record_stream,
  ingest_reverse_stream, ingest_tcp_info, mark_tcp_corroborate_unsupported, ingest_forward_hop,
  ingest_forward_tcp_hop, ingest_reverse_tcp_hop, ingest_reverse_hop, mark_suspects,
  mark_tcp_suspects, reset, reset_hops,
}
use dropline.Agg.Aggregator.Events.{
  Call, stream, reverse_stream, tcp_info, tcp_unsupported, forward_hop, forward_tcp_hop,
  reverse_hop, reverse_tcp_hop, suspects, tcp_suspects, rearm, path_status, call, run,
}

-- Whether a hop update said that the path ended at a NAT.
abbrev pub saw_nat : {F : Type 0} → List (Call F) → Bool
saw_nat [] = false
saw_nat (reverse_hop u ∷ cs) = str_eq u.terminus "nat" || saw_nat cs
saw_nat (c ∷ cs) = saw_nat cs

abbrev pub IsUnset : {F : Type 0} → List (Call F) → Type 0
IsUnset [] = Unit {0}
IsUnset (path_status s ∷ cs) = ⊥
IsUnset (c ∷ cs) = IsUnset cs

-- The status that the calls leave.
abbrev pub settled : Bool → String → String
settled nat status =
    if nat && str_eq status reverse_status_ok then reverse_status_terminated_at_nat else status

escalate_lem :
    (terminus status : String) (nat : Bool)
    → settled nat (escalate terminus status) ≡ settled (str_eq terminus "nat" || nat) status
unfolding escalate
escalate_lem terminus status true = ground arith
escalate_lem terminus status false = ground arith

module _ {F : Type 0} (fl : Floats F) where
  -- Over every run of calls without `SetReversePathStatus`, the status ends as it began, or, when
  -- it began as "ok" and some hop update had the terminus "nat", as "terminated_at_nat": a path
  -- that is disabled is never reported as ended at a NAT, and the escalation is never undone.
  reverse_status_run :
      (a : Aggregator F) (cs : List (Call F))
      → IsUnset cs
      → (run fl a cs).reverse_status ≡ settled (saw_nat cs) a.reverse_status
  unfolding run call ingest_stream record_stream ingest_reverse_stream ingest_tcp_info
      mark_tcp_corroborate_unsupported ingest_forward_hop ingest_forward_tcp_hop ingest_reverse_hop
      ingest_reverse_tcp_hop mark_suspects mark_tcp_suspects reset reset_hops publish_last
      publish_at
  reverse_status_run a [] u = refl
  reverse_status_run a (stream s ∷ cs) u = reverse_status_run (ingest_stream fl a s) cs u
  reverse_status_run a (reverse_stream s ∷ cs) u =
      reverse_status_run (ingest_reverse_stream fl a s) cs u
  reverse_status_run a (tcp_info retrans out rtt low ∷ cs) u =
      reverse_status_run (ingest_tcp_info fl a retrans out rtt low) cs u
  reverse_status_run a (tcp_unsupported ∷ cs) u =
      reverse_status_run (mark_tcp_corroborate_unsupported fl a) cs u
  reverse_status_run a (forward_hop s ∷ cs) u = reverse_status_run (ingest_forward_hop fl a s) cs u
  reverse_status_run a (forward_tcp_hop s ∷ cs) u =
      reverse_status_run (ingest_forward_tcp_hop fl a s) cs u
  reverse_status_run a (reverse_hop h ∷ cs) u =
      reverse_status_run (ingest_reverse_hop fl a h) cs u
      ∙ escalate_lem h.terminus a.reverse_status (saw_nat cs)
  reverse_status_run a (reverse_tcp_hop h ∷ cs) u =
      reverse_status_run (ingest_reverse_tcp_hop fl a h) cs u
  reverse_status_run a (suspects [] ∷ cs) u = reverse_status_run a cs u
  reverse_status_run a (suspects (t ∷ ts) ∷ cs) u =
      reverse_status_run (mark_suspects fl a (t ∷ ts)) cs u
  reverse_status_run a (tcp_suspects [] ∷ cs) u = reverse_status_run a cs u
  reverse_status_run a (tcp_suspects (t ∷ ts) ∷ cs) u =
      reverse_status_run (mark_tcp_suspects fl a (t ∷ ts)) cs u
  reverse_status_run a (rearm ∷ cs) u = reverse_status_run (reset fl a) cs u
  reverse_status_run a (path_status s ∷ cs) u = absurd u
