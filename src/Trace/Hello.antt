-- ===== src/Trace/Hello.antt =====
-- cmd/dropline/trace.go: the Hello of `traceRun`, and what it makes of the server's answer. The
-- flow ids and the token are drawn from crypto/rand and come in as values; a draw of 0 is 1.
pub mod Admitted
pub mod Negotiated
use dropline.Prelude.{
  ℕ, ◌/◌, ◌%◌, ◌^◌, String, str_eq, List, [], ◌∷◌, Bool, true, false, not, ◌&&◌, Option, none, some,
  ◌==◌, if◌then◌else◌,
}
use dropline.Prelude.Int.{ℤ, pos, pos_part, ◌/ℤ◌}
use dropline.Control.Messages.{
  Hello, Ready, type_hello, reverse_status_ok, reverse_status_disabled_by_client,
  reverse_status_disabled_by_server,
}
use dropline.Trace.Args.{TraceConfig, Mode, auto, on, off, mode_text}

-- `mintFlowID` and `mintToken`, of what was drawn.
unfoldable pub mint : ℕ → ℕ
mint drawn = if drawn == 0 then 1 else drawn

-- The loop that draws a reverse flow id until it is not the forward one; `none` if no draw is.
unfoldable pub mint_other : ℕ → List ℕ → Option ℕ
mint_other flow_id [] = none
mint_other flow_id (d ∷ draws) =
    let rest = mint_other flow_id draws in if mint d == flow_id then rest else some (mint d)

-- The reverse flow id, which stays 0 if the reverse stream is off.
unfoldable pub reverse_flow_id_of : Mode → ℕ → List ℕ → Option ℕ
reverse_flow_id_of off flow_id draws = some 0
reverse_flow_id_of on flow_id draws = mint_other flow_id draws
reverse_flow_id_of auto flow_id draws = mint_other flow_id draws

unfoldable pub corroborate_rate_on_wire : Mode → ℤ → ℤ
corroborate_rate_on_wire off rate = pos 0
corroborate_rate_on_wire on rate = rate
corroborate_rate_on_wire auto rate = rate

unfoldable pub hop_probe_port_on_wire : Mode → ℤ → ℕ
hop_probe_port_on_wire on port = pos_part port % 2 ^ 16
hop_probe_port_on_wire auto port = 0
hop_probe_port_on_wire off port = 0

-- d.Milliseconds()
unfoldable pub milliseconds : ℤ → ℤ
milliseconds d = d /ℤ pos 1000000

unfoldable pub make_hello : TraceConfig → ℕ → ℕ → ℕ → Hello
make_hello cfg flow_id reverse_flow_id token = record {
  type = type_hello;
  version = pos 1;
  mode = "loss";
  rate_bps = cfg.rate_bps;
  duration_ms = milliseconds cfg.duration;
  packet_size = cfg.packet_size;
  flow_id = flow_id;
  reverse_trace = mode_text cfg.reverse_trace;
  mtr_interval_ms = milliseconds cfg.mtr_interval;
  reverse_stream = mode_text cfg.reverse_stream;
  reverse_flow_id = reverse_flow_id;
  tcp_corroborate = mode_text cfg.tcp_corroborate;
  tcp_corroborate_rate_bps = corroborate_rate_on_wire cfg.tcp_corroborate cfg.tcp_corroborate_rate;
  token = token;
  tcp_hop_probe = mode_text cfg.tcp_hop_probe;
  tcp_hop_probe_port = hop_probe_port_on_wire cfg.tcp_hop_probe cfg.tcp_hop_probe_port;
}

unfoldable pub resolve_reverse_path_status : String → String → String
resolve_reverse_path_status client_pref server_decision =
    if str_eq client_pref "off"
    then reverse_status_disabled_by_client
    else if str_eq server_decision "on"
    then reverse_status_ok
    else reverse_status_disabled_by_server

-- reverseStreamOn, of the server's answer.
unfoldable pub reverse_stream_on : Ready → ℕ → Bool
reverse_stream_on m reverse_flow_id =
    str_eq m.reverse_stream "on"
    && (m.reverse_flow_id == reverse_flow_id && not (reverse_flow_id == 0))
