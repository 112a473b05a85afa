-- ===== src/Report.antt =====
-- internal/report/report.go: what a finished test is reported with. Strings that a suspect's evidence
-- is printed as are the constructors of Agg/Correlate; times are nanoseconds.
pub mod Document
pub mod Hints
use dropline.Prelude.{ℕ, String, List, Bool, Option, if◌then◌else◌}
use dropline.Prelude.Int.{ℤ, pos, leb_ℤ, ◌+ℤ◌}
use dropline.Prelude.Words.{wrap_i64}
use dropline.Prelude.Floats.{Floats}
use dropline.Control.Messages.{FinalStats}
use dropline.Agg.State.{Bucket}
use dropline.Agg.Correlate.{Evidence}

pub record ReportConfig : Type 0 where
  pub rate_bps : ℤ
  pub packet_size : ℤ
  pub mtr_interval_ms : ℤ
  pub max_hops : ℤ
  pub reverse_trace : String
  pub reverse_stream : String
  pub tcp_corroborate : String
  pub tcp_corroborate_rate_bps : ℤ
  pub tcp_hop_probe : String
  pub tcp_hop_probe_port : ℕ

module _ (F : Type 0) where
  pub record HopReport : Type 0 where
    pub ttl : ℤ
    pub ip : String
    pub sent : ℤ
    pub recv : ℤ
    pub loss_pct : F
    pub last_rtt_ms : F
    pub best_rtt_ms : F
    pub worst_rtt_ms : F
    pub avg_rtt_ms : F
    pub std_dev_rtt_ms : F
    pub suspect : Bool

  pub record ReverseHopReport : Type 0 where
    pub ttl : ℤ
    pub addr : String
    pub rtt_ms : F
    pub loss_pct : F
    pub sent : ℤ
    pub recv : ℤ
    pub best_rtt_ms : F
    pub worst_rtt_ms : F
    pub avg_rtt_ms : F
    pub std_dev_rtt_ms : F
    pub baseline_rtt_ms : F
    pub terminus : String

  pub record SuspectHopReport : Type 0 where
    pub ttl : ℤ
    pub confidence : F
    pub evidence : Evidence F
    pub source : String

  pub record ReverseStreamReport : Type 0 where
    pub sent : ℤ
    pub recv : ℤ
    pub lost : ℤ
    pub out_of_order : ℤ
    pub duplicates : ℤ
    pub loss_pct : F
    pub jitter_ms : F
    pub local_drops : ℤ
    pub duration_s : F

  pub record TcpCorroborateReport : Type 0 where
    pub supported : Bool
    pub bytes_retrans : ℕ
    pub bytes_out : ℕ
    pub retrans_pct : F
    pub rtt_us : ℕ
    pub min_rtt_us : ℕ

  pub record TcpHopProbeReport : Type 0 where
    pub supported : Bool
    pub port : ℕ
    pub forward_hops : List HopReport
    pub reverse_hops : List ReverseHopReport

  pub record Data : Type 0 where
    pub version : ℤ
    pub target : List ℕ
    pub started_at : ℤ
    pub duration_s : F
    pub config : ReportConfig
    pub stream : FinalStats F
    pub timeline : List (Bucket F)
    pub hops : List HopReport
    pub reverse_path : List ReverseHopReport
    pub reverse_path_status : String
    pub correlation : List SuspectHopReport
    pub reverse_stream : Option ReverseStreamReport
    pub tcp_corroborate : Option TcpCorroborateReport
    pub tcp_hop_probe : Option TcpHopProbeReport

module _ {F : Type 0} (fl : Floats F) where
  -- float64(loss) / float64(total) * 100
  unfoldable pub percent : ℤ → ℤ → F
  percent loss total = fl.mul (fl.div (fl.of_int loss) (fl.of_int total)) (fl.of_int (pos 100))

  -- `Data.lossPct`
  unfoldable pub loss_pct : Data F → F
  loss_pct d =
      let total = wrap_i64 (d.stream.recv +ℤ d.stream.loss) in
      if leb_ℤ total (pos 0) then fl.of_int (pos 0) else percent d.stream.loss total
