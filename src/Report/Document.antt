-- ===== src/Report/Document.antt =====
-- internal/report/json.go: the document of `RenderJSON`, up to the encoder; how a time is printed is a
-- parameter. A slice that may be nil is an Option.
use dropline.Prelude.{
  ℕ, String, str_eq, List, [], ◌∷◌, map, Bool, Option, none, some, if◌then◌else◌,
}
use dropline.Prelude.Int.{ℤ, pos, eqb_ℤ, ◌+ℤ◌}
use dropline.Prelude.Words.{to_i64, wrap_i64}
use dropline.Prelude.Floats.{Floats}
use dropline.Control.Messages.{WireBursts, reverse_status_disabled_by_server}
use dropline.Agg.State.{Bucket, HopView}
use dropline.Agg.Correlate.{Evidence}
use dropline.Report.{
  ReportConfig, HopReport, ReverseHopReport, SuspectHopReport, ReverseStreamReport,
  TcpCorroborateReport, TcpHopProbeReport, Data, loss_pct,
}

pub record JsonBursts : Type 0 where
  pub one : ℤ
  pub two : ℤ
  pub three9 : ℤ
  pub ten_up : ℤ
  pub max : ℤ

module _ (F : Type 0) where
  pub record JsonRtt : Type 0 where
    pub last : F
    pub best : F
    pub worst : F
    pub avg : F
    pub std_dev : F

  pub record JsonHop : Type 0 where
    pub ttl : ℤ
    pub ip : String
    pub sent : ℤ
    pub recv : ℤ
    pub loss_pct : F
    pub rtt_ms : JsonRtt
    pub suspect : Bool

  pub record JsonReverseHop : Type 0 where
    pub ttl : ℤ
    pub addr : String
    pub sent : ℤ
    pub recv : ℤ
    pub loss_pct : F
    pub rtt_ms : JsonRtt
    pub terminus : String

  pub record JsonTcpHopProbe : Type 0 where
    pub supported : Bool
    pub port : ℕ
    pub forward_hops : List JsonHop
    pub reverse_hops : List JsonReverseHop

  pub record JsonStream : Type 0 where
    pub sent : ℤ
    pub recv : ℤ
    pub loss_pct : F
    pub out_of_order : ℤ
    pub duplicates : ℤ
    pub jitter_ms : F
    pub kernel_drops : ℤ
    pub local_drops : ℤ
    pub bursts : JsonBursts
    pub rate_tx_bps : ℤ
    pub rate_rx_bps : ℤ

  pub record JsonSuspectHop : Type 0 where
    pub ttl : ℤ
    pub confidence : F
    pub evidence : Evidence F
    pub source : String

  pub record JsonTimelineRow : Type 0 where
    pub t : ℕ
    pub stream_loss : ℤ
    pub hops : List JsonHop
    pub tcp_hops : Option (List JsonHop)

  pub record JsonDoc : Type 0 where
    pub version : ℤ
    pub target : List ℕ
    pub started_at : String
    pub duration_s : F
    pub config : ReportConfig
    pub hops : List JsonHop
    pub reverse_path : List JsonReverseHop
    pub reverse_path_status : String
    pub stream : JsonStream
    pub reverse_stream : Option (ReverseStreamReport F)
    pub tcp_corroborate : Option (TcpCorroborateReport F)
    pub tcp_hop_probe : Option JsonTcpHopProbe
    pub correlation : List JsonSuspectHop
    pub timeline : List JsonTimelineRow

unfoldable pub bursts_to_json : WireBursts → JsonBursts
bursts_to_json b = record {
  one = b.one;
  two = b.two;
  three9 = b.three9;
  ten_up = wrap_i64 (b.ten99 +ℤ b.hundred_up);
  max = b.max;
}

module _ {F : Type 0} where
  unfoldable pub hop_to_json : HopReport F → JsonHop F
  hop_to_json h = record {
    ttl = h.ttl;
    ip = h.ip;
    sent = h.sent;
    recv = h.recv;
    loss_pct = h.loss_pct;
    rtt_ms = record {
      last = h.last_rtt_ms;
      best = h.best_rtt_ms;
      worst = h.worst_rtt_ms;
      avg = h.avg_rtt_ms;
      std_dev = h.std_dev_rtt_ms;
    };
    suspect = h.suspect;
  }

  unfoldable pub hops_to_json : List (HopReport F) → List (JsonHop F)
  hops_to_json src = map hop_to_json src

  unfoldable pub reverse_hop_to_json : ReverseHopReport F → JsonReverseHop F
  reverse_hop_to_json h = record {
    ttl = h.ttl;
    addr = h.addr;
    sent = h.sent;
    recv = h.recv;
    loss_pct = h.loss_pct;
    rtt_ms = record {
      last = h.rtt_ms;
      best = h.best_rtt_ms;
      worst = h.worst_rtt_ms;
      avg = h.avg_rtt_ms;
      std_dev = h.std_dev_rtt_ms;
    };
    terminus = h.terminus;
  }

  unfoldable pub reverse_hops_to_json : List (ReverseHopReport F) → List (JsonReverseHop F)
  reverse_hops_to_json src = map reverse_hop_to_json src

  unfoldable pub hop_view_to_json : HopView F → JsonHop F
  hop_view_to_json h = record {
    ttl = h.ttl;
    ip = h.ip;
    sent = h.sent;
    recv = h.recv;
    loss_pct = h.loss_pct;
    rtt_ms = record {
      last = h.last_rtt_ms;
      best = h.best_rtt_ms;
      worst = h.worst_rtt_ms;
      avg = h.avg_rtt_ms;
      std_dev = h.std_dev_rtt_ms;
    };
    suspect = h.suspect;
  }

  unfoldable pub hop_views_to_json : List (HopView F) → List (JsonHop F)
  hop_views_to_json src = map hop_view_to_json src

  unfoldable pub hop_views_to_json_omit_empty : List (HopView F) → Option (List (JsonHop F))
  hop_views_to_json_omit_empty [] = none
  hop_views_to_json_omit_empty (h ∷ hs) = some (hop_views_to_json (h ∷ hs))

  unfoldable pub suspect_hop_to_json : SuspectHopReport F → JsonSuspectHop F
  suspect_hop_to_json h = record {
    ttl = h.ttl;
    confidence = h.confidence;
    evidence = h.evidence;
    source = if str_eq h.source "icmp" then "" else h.source;
  }

  unfoldable pub suspect_hops_to_json : List (SuspectHopReport F) → List (JsonSuspectHop F)
  suspect_hops_to_json src = map suspect_hop_to_json src

  unfoldable pub tcp_hop_probe_to_json : Option (TcpHopProbeReport F) → Option (JsonTcpHopProbe F)
  tcp_hop_probe_to_json none = none
  tcp_hop_probe_to_json (some src) = some (record {
    supported = src.supported;
    port = src.port;
    forward_hops = hops_to_json src.forward_hops;
    reverse_hops = reverse_hops_to_json src.reverse_hops;
  })

  unfoldable pub timeline_row : Bucket F → JsonTimelineRow F
  timeline_row b = record {
    t = b.t;
    stream_loss = to_i64 b.stream_lost;
    hops = hop_views_to_json b.hops;
    tcp_hops = hop_views_to_json_omit_empty b.tcp_hops;
  }

module _ {F : Type 0} (fl : Floats F) (format_time : ℤ → String) where
  unfoldable pub stream_to_json : Data F → JsonStream F
  stream_to_json d =
      let s = d.stream in
      record {
        sent = s.sent;
        recv = s.recv;
        loss_pct = loss_pct fl d;
        out_of_order = s.out_of_order;
        duplicates = s.duplicates;
        jitter_ms = s.jitter_ms;
        kernel_drops = s.kernel_drops;
        local_drops = s.local_drops;
        bursts = bursts_to_json s.bursts;
        rate_tx_bps = s.rate_tx_bps;
        rate_rx_bps = s.rate_rx_bps;
      }

  -- `RenderJSON`, up to its encoder.
  unfoldable pub json_doc : Data F → JsonDoc F
  json_doc d = record {
    version = if eqb_ℤ d.version (pos 0) then pos 1 else d.version;
    target = d.target;
    started_at = format_time d.started_at;
    duration_s = d.duration_s;
    config = d.config;
    hops = hops_to_json d.hops;
    reverse_path = reverse_hops_to_json d.reverse_path;
    reverse_path_status =
        if str_eq d.reverse_path_status ""
        then reverse_status_disabled_by_server
        else d.reverse_path_status;
    stream = stream_to_json d;
    reverse_stream = d.reverse_stream;
    tcp_corroborate = d.tcp_corroborate;
    tcp_hop_probe = tcp_hop_probe_to_json d.tcp_hop_probe;
    correlation = suspect_hops_to_json d.correlation;
    timeline = map timeline_row d.timeline;
  }
