-- ===== src/Serve/Probe.antt =====
-- cmd/dropline/serve.go: `newProbeHandler`: who may open a corroboration probe, and how its reads
-- are slowed to the negotiated rate. The counter `total` is kept as the 64 bits of the int64.
pub mod Laws
use dropline.Prelude.{
  ℕ, ◌+◌, ◌*◌, ◌/◌, ◌%◌, ◌^◌, String, str_eq, Bool, true, false, ◌||◌, Option, none, some, List, [],
  ◌∷◌, ltb, if◌then◌else◌,
}
use dropline.Prelude.Int.{ℤ, pos, ltb_ℤ, ◌-ℤ◌, ◌/ℤ◌}
use dropline.Prelude.Words.{to_i64, wrap_i64}
use dropline.Stream.Net.{Ip, to4, ip_equal}
use dropline.Serve.Session.{Registry, SessionState, PeerAddr, tcp, other, lookup, slots}

pub data Verdict : Type 0 where
  unknown_session not_negotiated wrong_source probe_busy : Verdict
  admitted : SessionState → Verdict

-- `peer.IP.To4().Equal(st.clientIP)`, with To4's nil as the empty address.
unfoldable pub same_source : PeerAddr → Option Ip → Bool
same_source (tcp ip) (some client) = elim (to4 ip) [
  | some four ↦ ip_equal four client
  | none ↦ ip_equal [] client
]
same_source (tcp ip) none = false
same_source other client = false

-- `held` of the slots of `sem` are taken.
unfoldable pub admit_known : SessionState → ℤ → ℕ → PeerAddr → Verdict
admit_known st max_probes held peer =
    if st.tcp_probe_ok
    then (if same_source peer st.client_ip
        then (if ltb held (slots max_probes) then admitted st else probe_busy)
        else wrong_source)
    else not_negotiated

unfoldable pub admit_probe : Registry → ℤ → ℕ → String → PeerAddr → Verdict
admit_probe reg max_probes held sid peer = elim (lookup sid reg) [
  | none ↦ unknown_session
  | some st ↦ if str_eq sid "" then unknown_session else admit_known st max_probes held peer
]

-- `time.Duration(total*8*int64(time.Second) / st.probeRate)`: the product keeps its low 64 bits.
unfoldable pub expected_ns : ℤ → ℕ → ℤ
expected_ns rate total = to_i64 (total * 8 % 2 ^ 64 * 1000000000 % 2 ^ 64) /ℤ rate

-- How long the loop sleeps after a read, `elapsed` nanoseconds into the probe.
unfoldable pub pause : ℤ → ℕ → ℤ → Option ℤ
pause rate total elapsed =
    let extra = wrap_i64 (expected_ns rate total -ℤ elapsed) in
    if ltb_ℤ (pos 0) rate then (if ltb_ℤ (pos 10000000) extra then some extra else none) else none

-- One turn of the loop: n more bytes.
unfoldable pub on_read : ℤ → ℕ → ℕ → ℤ → ℕ × Option ℤ
on_read rate total n elapsed =
    let total' = (total + n) % 2 ^ 64 in (total', pause rate total' elapsed)
