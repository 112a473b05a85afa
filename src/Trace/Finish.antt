-- ===== src/Trace/Finish.antt =====
-- cmd/dropline/trace.go: `buildReportData` of `traceRun`. `none` is a panic of the correlator; the
-- order in which Go ranges over the map of `MergeSuspects` is a parameter.
pub mod Suspects
use dropline.Prelude.{List, [], Bool, true, false, ◌&&◌, Option, none, some, if◌then◌else◌}
use dropline.Prelude.Int.{ℤ, pos, pos_part}
use dropline.Prelude.Floats.{Floats}
use dropline.Control.Messages.{Final}
use dropline.Agg.State.{StateSnapshot}
use dropline.Agg.Aggregator.{Aggregator, state_snapshot, mark_suspects, mark_tcp_suspects}
use dropline.Agg.Correlate.{SuspectHop, correlate, correlate_tcp}
use dropline.Agg.Merge.{merge_suspects}
use dropline.Report.{ReportConfig, Data}
use dropline.Trace.Args.{TraceConfig, Mode, auto, on, off, mode_text}
use dropline.Trace.Hello.{milliseconds}
use dropline.Trace.Report.{
  hops_from_agg, reverse_hops_from_agg, suspects_to_reports, suspect_ttls_for_source,
  reverse_stream_report, tcp_corroborate_report, tcp_hop_probe_report,
}

unfoldable pub is_on : Mode → Bool
is_on on = true
is_on auto = false
is_on off = false

unfoldable pub report_config : TraceConfig → ReportConfig
report_config cfg = record {
  rate_bps = cfg.rate_bps;
  packet_size = cfg.packet_size;
  mtr_interval_ms = milliseconds cfg.mtr_interval;
  max_hops = cfg.max_hops;
  reverse_trace = mode_text cfg.reverse_trace;
  reverse_stream = mode_text cfg.reverse_stream;
  tcp_corroborate = mode_text cfg.tcp_corroborate;
  tcp_corroborate_rate_bps = cfg.tcp_corroborate_rate;
  tcp_hop_probe = mode_text cfg.tcp_hop_probe;
  tcp_hop_probe_port = pos_part cfg.tcp_hop_probe_port;
}

module _ {F : Type 0} (fl : Floats F) where
  -- The suspects of the TCP correlator, if its probe is on and supported.
  unfoldable pub tcp_suspects_of : TraceConfig → StateSnapshot F → Option (List (SuspectHop F))
  tcp_suspects_of cfg s =
      if is_on cfg.tcp_hop_probe && s.tcp_hop_probe_supported
      then correlate_tcp fl s.buckets s.latest_forward_tcp_hops
      else some []

  -- `aggregator.MarkSuspects(icmpTTLs)` and `aggregator.MarkTCPSuspects(tcpTTLs)`.
  unfoldable pub mark_both : Aggregator F → List (SuspectHop F) → Aggregator F
  mark_both a merged =
      mark_tcp_suspects fl (mark_suspects fl a (suspect_ttls_for_source merged "icmp"))
        (suspect_ttls_for_source merged "tcp")

  -- The report of the aggregator's state behind the marking.
  unfoldable pub data_of :
      TraceConfig → ℤ → Final F → List (SuspectHop F) → StateSnapshot F → Data F
  data_of cfg started_at f merged s = record {
    version = pos 1;
    target = cfg.target;
    started_at = started_at;
    duration_s = f.stats.duration_s;
    config = report_config cfg;
    stream = f.stats;
    timeline = s.buckets;
    hops = hops_from_agg s.latest_forward_hops;
    reverse_path = reverse_hops_from_agg s.latest_reverse_hops;
    reverse_path_status = s.reverse_path_status;
    correlation = suspects_to_reports merged;
    reverse_stream = reverse_stream_report fl s.reverse_stream (some f.stats);
    tcp_corroborate = tcp_corroborate_report s.tcp_corroborate;
    tcp_hop_probe = tcp_hop_probe_report s;
  }

  unfoldable pub finish :
      TraceConfig → ℤ → Final F → Aggregator F → List (SuspectHop F) → Aggregator F × Data F
  finish cfg started_at f a merged =
      let marked = mark_both a merged in
      (marked, data_of cfg started_at f merged (state_snapshot fl marked))

  unfoldable pub merged_of :
      (List (SuspectHop F) → List (SuspectHop F))
      → Option (List (SuspectHop F))
      → Option (List (SuspectHop F))
      → Option (List (SuspectHop F))
  merged_of order none tcp = none
  merged_of order (some icmp) none = none
  merged_of order (some icmp) (some tcp) = some (merge_suspects fl order icmp tcp)

  unfoldable pub reported :
      TraceConfig
      → ℤ
      → Final F
      → Aggregator F
      → Option (List (SuspectHop F))
      → Option (Aggregator F × Data F)
  reported cfg started_at f a none = none
  reported cfg started_at f a (some merged) = some (finish cfg started_at f a merged)

  -- `buildReportData`: the marked aggregator, and the report.
  unfoldable pub build_report_data :
      (List (SuspectHop F) → List (SuspectHop F))
      → TraceConfig
      → ℤ
      → Final F
      → Aggregator F
      → Option (Aggregator F × Data F)
  build_report_data order cfg started_at f a =
      let s = state_snapshot fl a in
      reported cfg started_at f a
        (merged_of order (correlate fl s.buckets s.latest_forward_hops) (tcp_suspects_of cfg s))
