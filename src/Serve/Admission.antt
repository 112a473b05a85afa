-- ===== src/Serve/Admission.antt =====
-- cmd/dropline/serve.go: `validateHello` and the resolution of a client's preferences. A rejection
-- is a constructor for each format string of the source, with the numbers and texts that are
-- printed into it.
pub mod Laws
use dropline.Prelude.{
  ℕ, ◌+◌, ◌*◌, String, str_eq, Bool, true, false, not, ◌&&◌, ◌||◌, Option, none, some, ltb, ◌==◌,
  if◌then◌else◌,
}
use dropline.Prelude.Int.{ℤ, pos, ltb_ℤ, leb_ℤ, eqb_ℤ, pos_part}
use dropline.Stream.Header.{header_size, max_packet_size}
use dropline.Control.Messages.{Hello}

abbrev pub max_session_duration_ms : ℕ
max_session_duration_ms = 60 * 60 * 1000

abbrev pub min_mtr_interval_ms : ℕ
min_mtr_interval_ms = 100

abbrev pub max_mtr_interval_ms : ℕ
max_mtr_interval_ms = 60000

pub data Rejection : Type 0 where
  unsupported_version : ℤ → Rejection
  unsupported_mode : String → Rejection
  token_required : Rejection
  packet_size_out_of_range : ℤ → Rejection
  duration_not_positive : ℤ → Rejection
  duration_over_cap : ℤ → Rejection
  rate_not_positive : ℤ → Rejection
  rate_over_cap : ℤ → ℤ → Rejection
  mtr_interval_out_of_range : ℤ → Rejection
  corroborate_rate_negative : ℤ → Rejection
  corroborate_rate_over_cap : ℤ → ℤ → Rejection
  bad_tcp_hop_probe : String → Rejection
  bad_tcp_hop_probe_port : ℕ → Rejection

unfoldable pub packet_size_bad : ℤ → Bool
packet_size_bad n = ltb_ℤ n (pos header_size) || ltb_ℤ (pos max_packet_size) n

-- `maxRateBPS > 0 && rate > maxRateBPS`
unfoldable pub over_cap : ℤ → ℤ → Bool
over_cap max_rate rate = ltb_ℤ (pos 0) max_rate && ltb_ℤ max_rate rate

unfoldable pub mtr_interval_bad : ℤ → Bool
mtr_interval_bad n =
    not (eqb_ℤ n (pos 0))
    && (ltb_ℤ n (pos min_mtr_interval_ms) || ltb_ℤ (pos max_mtr_interval_ms) n)

unfoldable pub is_hop_probe_word : String → Bool
is_hop_probe_word s = str_eq s "" || str_eq s "off" || str_eq s "auto" || str_eq s "on"

-- `none` is the empty string: the Hello is acceptable.
unfoldable pub validate_hello : Hello → ℤ → Option Rejection
validate_hello h max_rate =
    if not (eqb_ℤ h.version (pos 1))
    then some (unsupported_version h.version)
    else if not (str_eq h.mode "loss")
    then some (unsupported_mode h.mode)
    else if h.token == 0
    then some token_required
    else if packet_size_bad h.packet_size
    then some (packet_size_out_of_range h.packet_size)
    else if leb_ℤ h.duration_ms (pos 0)
    then some (duration_not_positive h.duration_ms)
    else if ltb_ℤ (pos max_session_duration_ms) h.duration_ms
    then some (duration_over_cap h.duration_ms)
    else if leb_ℤ h.rate_bps (pos 0)
    then some (rate_not_positive h.rate_bps)
    else if over_cap max_rate h.rate_bps
    then some (rate_over_cap h.rate_bps max_rate)
    else if mtr_interval_bad h.mtr_interval_ms
    then some (mtr_interval_out_of_range h.mtr_interval_ms)
    else if ltb_ℤ h.tcp_corroborate_rate_bps (pos 0)
    then some (corroborate_rate_negative h.tcp_corroborate_rate_bps)
    else if not (str_eq h.tcp_corroborate "off") && over_cap max_rate h.tcp_corroborate_rate_bps
    then some (corroborate_rate_over_cap h.tcp_corroborate_rate_bps max_rate)
    else if not (is_hop_probe_word h.tcp_hop_probe)
    then some (bad_tcp_hop_probe h.tcp_hop_probe)
    else if str_eq h.tcp_hop_probe "on" && ltb h.tcp_hop_probe_port 1
    then some (bad_tcp_hop_probe_port h.tcp_hop_probe_port)
    else none

unfoldable pub resolve_reverse_trace : String → Bool → String
resolve_reverse_trace pref capable = if str_eq pref "off" || not capable then "off" else "on"

unfoldable pub resolve_tcp_corroborate : String → String
resolve_tcp_corroborate pref = if str_eq pref "" || str_eq pref "off" then "off" else "on"

unfoldable pub resolve_tcp_hop_probe : String → Bool → String
resolve_tcp_hop_probe pref capable = if not (str_eq pref "on") || not capable then "off" else "on"

unfoldable pub resolve_reverse_stream : String → ℕ → ℕ → String × ℕ
resolve_reverse_stream pref reverse_flow_id forward_flow_id =
    if str_eq pref "off"
    then ("off", 0)
    else if not (str_eq pref "on" || str_eq pref "auto")
    then ("off", 0)
    else if reverse_flow_id == 0 || reverse_flow_id == forward_flow_id
    then ("off", 0)
    else ("on", reverse_flow_id)

-- In nanoseconds.
unfoldable pub reverse_interval : ℤ → ℤ
reverse_interval ms = if leb_ℤ ms (pos 0) then pos 1000000000 else pos (pos_part ms * 1000000)
