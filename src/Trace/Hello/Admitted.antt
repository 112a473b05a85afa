-- ===== src/Trace/Hello/Admitted.antt =====
-- cmd/dropline/trace.go against serve.go, sender.go and probe_unix.go: what becomes of a config that
-- the client has accepted.
use dropline.Prelude.{
  ℕ, ◌<◌, ◌≢◌, ◌⊎◌, ◌↔◌, String, Bool, none, some, eq_iff, ◌≡◌, refl, arith, inl, inr,
}
use dropline.Prelude.Int.{ℤ, pos, negsuc, ◌≤ℤ◌, ◌/ℤ◌}
use dropline.Serve.Admission.{validate_hello, max_session_duration_ms}
use dropline.Serve.Admission.Laws.{Allows, IsAdmissible, validate_hello_iff}
use dropline.Trace.Texts.{Text}
use dropline.Trace.Args.{
  Flags, TraceConfig, Mode, auto, on, off, mode_text, numbers_bad, parse_trace_args,
  min_mtr_interval, max_mtr_interval,
}
use dropline.Trace.Args.Parsed.{IsParsed, parse_trace_args-IsParsed}
use dropline.Trace.Hello.{
  make_hello, milliseconds, corroborate_rate_on_wire, hop_probe_port_on_wire,
}

-- What an accepted config leaves to the server: a duration of whole milliseconds up to an hour, and
-- its cap on the rates.
pub record IsWelcome (cfg : TraceConfig) (max_rate : ℤ) : Type 0 where
  pub duration_min : pos 1000000 ≤ℤ cfg.duration
  pub duration_max : milliseconds cfg.duration ≤ℤ pos max_session_duration_ms
  pub rate : Allows max_rate cfg.rate_bps
  pub corroborate_rate : (cfg.tcp_corroborate ≡ off) ⊎ Allows max_rate cfg.tcp_corroborate_rate

-- The numbers of the config, within their bounds.
record IsBounded (cfg : TraceConfig) : Type 0 where
  port_min : pos 1 ≤ℤ cfg.tcp_hop_probe_port
  port_max : cfg.tcp_hop_probe_port ≤ℤ pos 65535
  packet_min : pos 32 ≤ℤ cfg.packet_size
  packet_max : cfg.packet_size ≤ℤ pos 65507
  hops_min : pos 1 ≤ℤ cfg.max_hops
  hops_max : cfg.max_hops ≤ℤ pos 255
  duration : pos 1 ≤ℤ cfg.duration
  mtr_min : pos min_mtr_interval ≤ℤ cfg.mtr_interval
  mtr_max : cfg.mtr_interval ≤ℤ pos max_mtr_interval

flags-IsBounded : (f : Flags) (cfg : TraceConfig) → IsParsed f cfg → IsBounded cfg
unfolding numbers_bad
flags-IsBounded f cfg w =
    let good = w.numbers in
    record {
      port_min = let e = w.port in ground arith;
      port_max = let e = w.port in ground arith;
      packet_min = let e = w.packet_size in ground arith;
      packet_max = let e = w.packet_size in ground arith;
      hops_min = let e = w.max_hops in ground arith;
      hops_max = let e = w.max_hops in ground arith;
      duration = let e = w.duration in ground arith;
      mtr_min = let e = w.mtr_interval in ground arith;
      mtr_max = let e = w.mtr_interval in ground arith;
    }

milliseconds_range :
    (d : ℤ)
    → pos min_mtr_interval ≤ℤ d
    → d ≤ℤ pos max_mtr_interval
    → (pos 100 ≤ℤ milliseconds d) × (milliseconds d ≤ℤ pos 60000)
unfolding milliseconds ◌/ℤ◌
milliseconds_range (pos n) lo hi = (omega arith, omega arith)
milliseconds_range (negsuc n) lo hi = absurd (omega arith)

milliseconds_pos : (d : ℤ) → pos 1 ≤ℤ d → (pos 1 ≤ℤ milliseconds d) ↔ (pos 1000000 ≤ℤ d)
unfolding milliseconds ◌/ℤ◌
milliseconds_pos (pos n) h = (λ k. omega arith, λ k. omega arith)
milliseconds_pos (negsuc n) h = absurd (omega arith)

on_ne_off : ◌≢◌ {A = String} "on" "off"
on_ne_off h = let e = (eq_iff "on" "off").1 h in cc

auto_ne_off : ◌≢◌ {A = String} "auto" "off"
auto_ne_off h = let e = (eq_iff "auto" "off").1 h in cc

-- The rate on the wire passes the cap exactly if the client's does, or is left out.
corroborate_iff :
    (m : Mode) (rate max_rate : ℤ)
    → ((mode_text m ≡ "off") ⊎ Allows max_rate (corroborate_rate_on_wire m rate))
      ↔ ((m ≡ off) ⊎ Allows max_rate rate)
unfolding mode_text corroborate_rate_on_wire
corroborate_iff off rate max_rate = (λ h. inl refl, λ h. inl refl)
corroborate_iff on rate max_rate = (
  λ h. elim h [ inl e ↦ absurd (on_ne_off e) | inr a ↦ inr a ],
  λ h. elim h [ inl e ↦ absurd (cc) | inr a ↦ inr a ],
)
corroborate_iff auto rate max_rate = (
  λ h. elim h [ inl e ↦ absurd (auto_ne_off e) | inr a ↦ inr a ],
  λ h. elim h [ inl e ↦ absurd (cc) | inr a ↦ inr a ],
)

corroborate_pos : (m : Mode) (rate : ℤ) → pos 1 ≤ℤ rate → pos 0 ≤ℤ corroborate_rate_on_wire m rate
unfolding corroborate_rate_on_wire
corroborate_pos off rate h = omega arith
corroborate_pos on rate h = omega arith
corroborate_pos auto rate h = omega arith

-- The hop probe is asked for with a port, or not at all.
hop_probe_word :
    (m : Mode) (port : ℤ)
    → pos 1 ≤ℤ port
    → port ≤ℤ pos 65535
    → ((mode_text m ≡ "on") × (0 < hop_probe_port_on_wire m port))
      ⊎ (mode_text m ≡ "")
      ⊎ (mode_text m ≡ "off")
      ⊎ (mode_text m ≡ "auto")
unfolding mode_text hop_probe_port_on_wire
hop_probe_word on (pos n) lo hi = inl (refl, omega arith)
hop_probe_word on (negsuc n) lo hi = absurd (omega arith)
hop_probe_word off port lo hi = inr (inr (inl refl))
hop_probe_word auto port lo hi = inr (inr (inr refl))

welcome-IsAdmissible :
    (cfg : TraceConfig) (flow_id reverse_flow_id token : ℕ) (max_rate : ℤ)
    → IsBounded cfg
    → pos 1 ≤ℤ cfg.rate_bps
    → pos 1 ≤ℤ cfg.tcp_corroborate_rate
    → 0 < token
    → IsWelcome cfg max_rate
    → IsAdmissible (make_hello cfg flow_id reverse_flow_id token) max_rate
unfolding make_hello
welcome-IsAdmissible cfg flow_id reverse_flow_id token max_rate b rate corr t w =
    let (ms_min, ms_max) = milliseconds_range cfg.mtr_interval b.mtr_min b.mtr_max in
    record {
      version = refl;
      mode = refl;
      token = t;
      packet_min = b.packet_min;
      packet_max = b.packet_max;
      duration_min = (milliseconds_pos cfg.duration b.duration).1 w.duration_min;
      duration_max = w.duration_max;
      rate_min = rate;
      rate_max = w.rate;
      mtr = inr (ms_min, ms_max);
      corroborate_min = corroborate_pos cfg.tcp_corroborate cfg.tcp_corroborate_rate corr;
      corroborate_max =
          (corroborate_iff cfg.tcp_corroborate cfg.tcp_corroborate_rate max_rate).1
            w.corroborate_rate;
      hop_probe = hop_probe_word cfg.tcp_hop_probe cfg.tcp_hop_probe_port b.port_min b.port_max;
    }

admissible-IsWelcome :
    (cfg : TraceConfig) (flow_id reverse_flow_id token : ℕ) (max_rate : ℤ)
    → IsBounded cfg
    → IsAdmissible (make_hello cfg flow_id reverse_flow_id token) max_rate
    → IsWelcome cfg max_rate
unfolding make_hello
admissible-IsWelcome cfg flow_id reverse_flow_id token max_rate b a = record {
  duration_min = (milliseconds_pos cfg.duration b.duration).0 a.duration_min;
  duration_max = a.duration_max;
  rate = a.rate_max;
  corroborate_rate =
      (corroborate_iff cfg.tcp_corroborate cfg.tcp_corroborate_rate max_rate).0 a.corroborate_max;
}

is_positive : (z : ℤ) (r : ℕ) → z ≡ pos r → 0 < r → pos 1 ≤ℤ z
is_positive z r e h = rw e (omega arith)

-- What the server makes of the Hello of a client whose arguments were accepted: it is admitted
-- exactly if the duration is at least a millisecond and at most an hour, the send rate passes the
-- server's cap, and so does the corroboration rate unless that probe is off. Of what the client
-- checks itself, nothing is refused.
pub hello_admitted_iff :
    (has_port : Text → Bool) (is_tty : Bool) (f : Flags) {cfg : TraceConfig}
    (flow_id reverse_flow_id token : ℕ) (max_rate : ℤ)
    → parse_trace_args has_port is_tty f ≡ some cfg
    → 0 < token
    → (validate_hello (make_hello cfg flow_id reverse_flow_id token) max_rate ≡ none)
      ↔ IsWelcome cfg max_rate
hello_admitted_iff has_port is_tty f {cfg} flow_id reverse_flow_id token max_rate parsed t =
    let w = parse_trace_args-IsParsed has_port is_tty f parsed in
    let b = flags-IsBounded f cfg w in
    let (r, rate, (r_pos, _)) = w.rate in
    let (c, corr, (c_pos, _)) = w.corroborate_rate in
    let hello = make_hello cfg flow_id reverse_flow_id token in
    (
      λ h.
          admissible-IsWelcome cfg flow_id reverse_flow_id token max_rate b
            ((validate_hello_iff hello max_rate).0 h),
      λ k. (validate_hello_iff hello max_rate).1 (
          welcome-IsAdmissible cfg flow_id reverse_flow_id token max_rate b
            (is_positive cfg.rate_bps r rate r_pos)
            (is_positive cfg.tcp_corroborate_rate c corr c_pos) t k),
    )
