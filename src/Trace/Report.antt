-- ===== src/Trace/Report.antt =====
-- cmd/dropline/trace.go: the adapters from the aggregator's state to the report. An empty list stands
-- for nil too, as the report tells only whether there are hops.
pub mod Marked
pub mod Reverse
use dropline.Prelude.{
  ℕ, String, str_eq, List, [], ◌∷◌, map, Bool, true, false, ◌&&◌, ◌||◌, Option, none, some, ◌==◌,
  if◌then◌else◌,
}
use dropline.Prelude.Int.{ℤ, pos, ltb_ℤ, eqb_ℤ, ◌+ℤ◌, ◌-ℤ◌}
use dropline.Prelude.Words.{to_i64, wrap_i64}
use dropline.Prelude.Floats.{Floats}
use dropline.Control.Messages.{FinalStats}
use dropline.Agg.State.{ReverseHopView, HopView, StreamView, TcpCorroborateView, StateSnapshot}
use dropline.Agg.Correlate.{SuspectHop}
use dropline.Report.{
  HopReport, ReverseHopReport, SuspectHopReport, ReverseStreamReport, TcpCorroborateReport,
  TcpHopProbeReport, percent,
}

-- The effective loss of what was sent, what arrived and the gaps that the receiver saw.
unfoldable pub effective_loss : ℤ → ℤ → ℤ → ℤ
effective_loss sent recv gaps =
    let tail = wrap_i64 (sent -ℤ recv) in
    let loss = if ltb_ℤ gaps tail then tail else gaps in if ltb_ℤ loss (pos 0) then pos 0 else loss

module _ {F : Type 0} where
  unfoldable pub hop_from_agg : HopView F → HopReport F
  hop_from_agg h = record {
    ttl = h.ttl;
    ip = h.ip;
    sent = h.sent;
    recv = h.recv;
    loss_pct = h.loss_pct;
    last_rtt_ms = h.last_rtt_ms;
    best_rtt_ms = h.best_rtt_ms;
    worst_rtt_ms = h.worst_rtt_ms;
    avg_rtt_ms = h.avg_rtt_ms;
    std_dev_rtt_ms = h.std_dev_rtt_ms;
    suspect = h.suspect;
  }

  unfoldable pub hops_from_agg : List (HopView F) → List (HopReport F)
  hops_from_agg hops = map hop_from_agg hops

  unfoldable pub reverse_hop_from_agg : ReverseHopView F → ReverseHopReport F
  reverse_hop_from_agg h = record {
    ttl = h.ttl;
    addr = h.addr;
    rtt_ms = h.rtt_ms;
    loss_pct = h.loss_pct;
    sent = h.sent;
    recv = h.recv;
    best_rtt_ms = h.best_rtt_ms;
    worst_rtt_ms = h.worst_rtt_ms;
    avg_rtt_ms = h.avg_rtt_ms;
    std_dev_rtt_ms = h.std_dev_rtt_ms;
    baseline_rtt_ms = h.baseline_rtt_ms;
    terminus = h.terminus;
  }

  unfoldable pub reverse_hops_from_agg : List (ReverseHopView F) → List (ReverseHopReport F)
  reverse_hops_from_agg hops = map reverse_hop_from_agg hops

  unfoldable pub suspect_to_report : SuspectHop F → SuspectHopReport F
  suspect_to_report s = record {
    ttl = s.ttl;
    confidence = s.confidence;
    evidence = s.evidence;
    source = s.source;
  }

  unfoldable pub suspects_to_reports : List (SuspectHop F) → List (SuspectHopReport F)
  suspects_to_reports suspects = map suspect_to_report suspects

  unfoldable pub suspect_ttls_for_source : List (SuspectHop F) → String → List ℤ
  suspect_ttls_for_source [] source = []
  suspect_ttls_for_source (s ∷ ss) source =
      let rest = suspect_ttls_for_source ss source in
      if str_eq s.source source || str_eq s.source "icmp+tcp" then s.ttl ∷ rest else rest

  unfoldable pub tcp_corroborate_report :
      Option (TcpCorroborateView F) → Option (TcpCorroborateReport F)
  tcp_corroborate_report none = none
  tcp_corroborate_report (some v) = some (record {
    supported = v.supported;
    bytes_retrans = v.bytes_retrans;
    bytes_out = v.bytes_out;
    retrans_pct = v.retrans_pct;
    rtt_us = v.rtt_us;
    min_rtt_us = v.min_rtt_us;
  })

  unfoldable pub tcp_hop_probe_report : StateSnapshot F → Option (TcpHopProbeReport F)
  tcp_hop_probe_report s =
      if s.tcp_hop_probe_port == 0
      then none
      else some (record {
        supported = s.tcp_hop_probe_supported;
        port = s.tcp_hop_probe_port;
        forward_hops = hops_from_agg s.latest_forward_tcp_hops;
        reverse_hops = reverse_hops_from_agg s.latest_reverse_tcp_hops;
      })

  unfoldable pub sent_in : Option (FinalStats F) → ℤ
  sent_in none = pos 0
  sent_in (some fs) = fs.reverse_sent

module _ {F : Type 0} (fl : Floats F) where
  -- fs.ReverseSent == 0 && fs.ReverseDurationS == 0, or fs is nil; a duration is not NaN.
  unfoldable pub nothing_sent : Option (FinalStats F) → Bool
  nothing_sent none = true
  nothing_sent (some fs) =
      let zero = fl.of_int (pos 0) in
      eqb_ℤ fs.reverse_sent (pos 0)
      && (if fl.lt fs.reverse_duration_s zero || fl.lt zero fs.reverse_duration_s
          then false
          else true)

  unfoldable pub reverse_loss_pct : ℤ → ℤ → ℤ → F
  reverse_loss_pct sent recv loss =
      if ltb_ℤ (pos 0) sent
      then percent fl loss sent
      else let total = wrap_i64 (recv +ℤ loss) in
        if ltb_ℤ (pos 0) total then percent fl loss total else fl.of_int (pos 0)

  -- The report of a view that is nil.
  unfoldable pub without_view : ℤ → F → ReverseStreamReport F
  without_view sent duration =
      let loss = effective_loss sent (pos 0) (pos 0) in
      record {
        sent = sent;
        recv = pos 0;
        lost = loss;
        out_of_order = pos 0;
        duplicates = pos 0;
        loss_pct = reverse_loss_pct sent (pos 0) loss;
        jitter_ms = fl.of_int (pos 0);
        local_drops = pos 0;
        duration_s = duration;
      }

  unfoldable pub with_view : StreamView F → ℤ → F → ReverseStreamReport F
  with_view v sent duration =
      let loss = effective_loss sent (to_i64 v.recv) (to_i64 v.lost) in
      record {
        sent = sent;
        recv = to_i64 v.recv;
        lost = loss;
        out_of_order = to_i64 v.out_of_order;
        duplicates = to_i64 v.duplicates;
        loss_pct = reverse_loss_pct sent (to_i64 v.recv) loss;
        jitter_ms = v.jitter_ms;
        local_drops = to_i64 v.local_drops;
        duration_s = duration;
      }

  unfoldable pub duration_in : Option (FinalStats F) → F
  duration_in none = fl.of_int (pos 0)
  duration_in (some fs) = fs.reverse_duration_s

  unfoldable pub reverse_stream_report :
      Option (StreamView F) → Option (FinalStats F) → Option (ReverseStreamReport F)
  reverse_stream_report none fs =
      if nothing_sent fs then none else some (without_view (sent_in fs) (duration_in fs))
  reverse_stream_report (some v) fs = some (with_view v (sent_in fs) (duration_in fs))
