-- ===== src/Control/Messages.antt =====
-- internal/control/messages.go: the control messages. F is the type of float64 values. Fields of
-- type int64 and int may be negative on the wire; they are integers.
use dropline.Prelude.{ℕ, String, str_eq, if◌then◌else◌}
use dropline.Prelude.Int.{ℤ}

abbrev pub type_hello : String
type_hello = "hello"

abbrev pub type_ready : String
type_ready = "ready"

abbrev pub type_error : String
type_error = "error"

abbrev pub type_stats : String
type_stats = "stats"

abbrev pub type_final : String
type_final = "final"

abbrev pub type_reverse_hop_update : String
type_reverse_hop_update = "reverse_hop_update"

abbrev pub type_reverse_tcp_hop_update : String
type_reverse_tcp_hop_update = "reverse_tcp_hop_update"

abbrev pub type_tcp_probe : String
type_tcp_probe = "tcp_probe"

abbrev pub reverse_status_ok : String
reverse_status_ok = "ok"

abbrev pub reverse_status_disabled_by_server : String
reverse_status_disabled_by_server = "disabled_by_server"

abbrev pub reverse_status_disabled_by_client : String
reverse_status_disabled_by_client = "disabled_by_client"

abbrev pub reverse_status_terminated_at_nat : String
reverse_status_terminated_at_nat = "terminated_at_nat"

unfoldable pub friendly_reverse_status : String → String
friendly_reverse_status s =
    if str_eq s reverse_status_terminated_at_nat
    then "terminated at NAT"
    else if str_eq s reverse_status_disabled_by_server
    then "disabled by server"
    else if str_eq s reverse_status_disabled_by_client
    then "disabled by client"
    else s

pub record Hello : Type 0 where
  pub type : String
  pub version : ℤ
  pub mode : String
  pub rate_bps : ℤ
  pub duration_ms : ℤ
  pub packet_size : ℤ
  pub flow_id : ℕ
  pub reverse_trace : String
  pub mtr_interval_ms : ℤ
  pub reverse_stream : String
  pub reverse_flow_id : ℕ
  pub tcp_corroborate : String
  pub tcp_corroborate_rate_bps : ℤ
  pub token : ℕ
  pub tcp_hop_probe : String
  pub tcp_hop_probe_port : ℕ

pub record Ready : Type 0 where
  pub type : String
  pub session_id : String
  pub reverse_trace : String
  pub reverse_stream : String
  pub reverse_flow_id : ℕ
  pub tcp_corroborate : String
  pub tcp_hop_probe : String

pub record ErrorMessage : Type 0 where
  pub type : String
  pub reason : String

pub record Stats (F : Type 0) : Type 0 where
  pub type : String
  pub t : F
  pub recv : ℤ
  pub loss : ℤ
  pub jitter_ms : F
  pub kernel_drops : ℤ

pub record WireBursts : Type 0 where
  pub one : ℤ
  pub two : ℤ
  pub three9 : ℤ
  pub ten99 : ℤ
  pub hundred_up : ℤ
  pub max : ℤ

pub record FinalStats (F : Type 0) : Type 0 where
  pub sent : ℤ
  pub recv : ℤ
  pub loss : ℤ
  pub out_of_order : ℤ
  pub duplicates : ℤ
  pub jitter_ms : F
  pub kernel_drops : ℤ
  pub local_drops : ℤ
  pub duration_s : F
  pub bursts : WireBursts
  pub rate_tx_bps : ℤ
  pub rate_rx_bps : ℤ
  pub reverse_sent : ℤ
  pub reverse_duration_s : F
  pub tcp_bytes_retrans : ℕ
  pub tcp_bytes_out : ℕ

pub record Final (F : Type 0) : Type 0 where
  pub type : String
  pub stats : FinalStats F

pub record ReverseHopUpdate (F : Type 0) : Type 0 where
  pub type : String
  pub ttl : ℤ
  pub addr : String
  pub rtt_ms : F
  pub loss_pct : F
  pub terminus : String
  pub sent : ℤ
  pub recv : ℤ
  pub best_rtt_ms : F
  pub worst_rtt_ms : F
  pub avg_rtt_ms : F
  pub std_dev_rtt_ms : F
  pub baseline_rtt_ms : F
  pub max_ttl : ℤ

pub record ReverseTcpHopUpdate (F : Type 0) : Type 0 where
  pub type : String
  pub ttl : ℤ
  pub addr : String
  pub port : ℕ
  pub rtt_ms : F
  pub loss_pct : F
  pub terminus : String
  pub sent : ℤ
  pub recv : ℤ
  pub best_rtt_ms : F
  pub worst_rtt_ms : F
  pub avg_rtt_ms : F
  pub std_dev_rtt_ms : F
  pub baseline_rtt_ms : F
  pub max_ttl : ℤ

pub record TcpProbe : Type 0 where
  pub type : String
  pub session_id : String
  pub rate_bps : ℤ

-- The implementations of the marker interface `Message`.
pub data Message (F : Type 0) : Type 0 where
  hello : Hello → Message F
  ready : Ready → Message F
  error : ErrorMessage → Message F
  stats : Stats F → Message F
  final : Final F → Message F
  reverse_hop_update : ReverseHopUpdate F → Message F
  reverse_tcp_hop_update : ReverseTcpHopUpdate F → Message F
  tcp_probe : TcpProbe → Message F
