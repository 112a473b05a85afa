-- ===== src/Agg/State.antt =====
-- internal/agg/state.go: the views that the aggregator publishes. The int64 counters of the stream
-- are the bit patterns of Stream/Stats; uint64 and uint32 values are numbers.
use dropline.Prelude.{ℕ, String, Bool, List, Option}
use dropline.Prelude.Int.{ℤ}
use dropline.Stream.Stats.{BurstBuckets}

module _ (F : Type 0) where
  pub record TcpCorroborateView : Type 0 where
    pub supported : Bool
    pub bytes_retrans : ℕ
    pub bytes_out : ℕ
    pub retrans_pct : F
    pub rtt_us : ℕ
    pub min_rtt_us : ℕ

  pub record ReverseHopView : Type 0 where
    pub ttl : ℤ
    pub addr : String
    pub rtt_ms : F
    pub loss_pct : F
    pub sent : ℤ
    pub recv : ℤ
    pub best_rtt_ms : F
    pub worst_rtt_ms : F
    pub avg_rtt_ms : F
    pub std_dev_rtt_ms : F
    pub baseline_rtt_ms : F
    pub terminus : String

  pub record HopView : Type 0 where
    pub ttl : ℤ
    pub ip : String
    pub sent : ℤ
    pub recv : ℤ
    pub last_rtt_ms : F
    pub best_rtt_ms : F
    pub worst_rtt_ms : F
    pub avg_rtt_ms : F
    pub std_dev_rtt_ms : F
    pub baseline_rtt_ms : F
    pub loss_pct : F
    pub terminus : Bool
    pub suspect : Bool

  pub record StreamView : Type 0 where
    pub recv : ℕ
    pub lost : ℕ
    pub out_of_order : ℕ
    pub duplicates : ℕ
    pub local_drops : ℕ
    pub kernel_drops : ℤ
    pub jitter_ms : F
    pub max_seq : ℕ
    pub bursts : BurstBuckets
    pub loss_pct : F

  pub record Bucket : Type 0 where
    pub t : ℕ
    pub stream_recv : ℕ
    pub stream_lost : ℕ
    pub stream_loss_pct : F
    pub hops : List HopView
    pub tcp_hops : List HopView

  pub record StateSnapshot : Type 0 where
    pub t : F
    pub stream : StreamView
    pub buckets : List Bucket
    pub latest_forward_hops : List HopView
    pub latest_reverse_hops : List ReverseHopView
    pub reverse_path_status : String
    pub reverse_stream : Option StreamView
    pub tcp_corroborate : Option TcpCorroborateView
    pub latest_forward_tcp_hops : List HopView
    pub latest_reverse_tcp_hops : List ReverseHopView
    pub tcp_hop_probe_supported : Bool
    pub tcp_hop_probe_port : ℕ
