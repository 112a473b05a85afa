-- ===== src/Serve/Admission/Laws.antt =====
-- What cmd/dropline/serve.go admits.
use dropline.Prelude.{
  ℕ, ◌<◌, String, str_eq, eq_iff, true, false, not, ◌&&◌, ◌||◌, none, ltb, ◌==◌, ◌≡◌, ◌≢◌, ◌⊎◌, inl,
  inr, ◌↔◌, arith, Bool-cases,
}
use dropline.Prelude.Int.{ℤ, pos, ltb_ℤ, leb_ℤ, eqb_ℤ, ◌≤ℤ◌}
use dropline.Control.Messages.{Hello}
use dropline.Serve.Admission.{
  validate_hello, packet_size_bad, over_cap, mtr_interval_bad, is_hop_probe_word,
  resolve_reverse_stream, max_session_duration_ms, min_mtr_interval_ms, max_mtr_interval_ms,
}

-- A rate that the server's cap (0 for none) allows.
abbrev pub Allows : ℤ → ℤ → Type 0
Allows max_rate rate = (max_rate ≤ℤ pos 0) ⊎ (rate ≤ℤ max_rate)

-- What a Hello needs, apart from the order in which the source tests it.
pub record IsAdmissible (h : Hello) (max_rate : ℤ) : Type 0 where
  pub version : h.version ≡ pos 1
  pub mode : h.mode ≡ "loss"
  pub token : 0 < h.token
  pub packet_min : pos 32 ≤ℤ h.packet_size
  pub packet_max : h.packet_size ≤ℤ pos 65507
  pub duration_min : pos 1 ≤ℤ h.duration_ms
  pub duration_max : h.duration_ms ≤ℤ pos max_session_duration_ms
  pub rate_min : pos 1 ≤ℤ h.rate_bps
  pub rate_max : Allows max_rate h.rate_bps
  pub mtr :
      (h.mtr_interval_ms ≡ pos 0)
      ⊎ ((pos min_mtr_interval_ms ≤ℤ h.mtr_interval_ms)
          × (h.mtr_interval_ms ≤ℤ pos max_mtr_interval_ms))
  pub corroborate_min : pos 0 ≤ℤ h.tcp_corroborate_rate_bps
  pub corroborate_max : (h.tcp_corroborate ≡ "off") ⊎ Allows max_rate h.tcp_corroborate_rate_bps
  pub hop_probe :
      ((h.tcp_hop_probe ≡ "on") × (0 < h.tcp_hop_probe_port))
      ⊎ (h.tcp_hop_probe ≡ "")
      ⊎ (h.tcp_hop_probe ≡ "off")
      ⊎ (h.tcp_hop_probe ≡ "auto")

-- The tests of `validateHello`, each to be passed over.
record PassesTests (h : Hello) (max_rate : ℤ) : Type 0 where
  version : eqb_ℤ h.version (pos 1) ≡ true
  mode : str_eq h.mode "loss" ≡ true
  token : (h.token == 0) ≡ false
  packet : packet_size_bad h.packet_size ≡ false
  duration_min : leb_ℤ h.duration_ms (pos 0) ≡ false
  duration_max : ltb_ℤ (pos max_session_duration_ms) h.duration_ms ≡ false
  rate_min : leb_ℤ h.rate_bps (pos 0) ≡ false
  rate_max : over_cap max_rate h.rate_bps ≡ false
  mtr : mtr_interval_bad h.mtr_interval_ms ≡ false
  corroborate_min : ltb_ℤ h.tcp_corroborate_rate_bps (pos 0) ≡ false
  corroborate_max :
      (not (str_eq h.tcp_corroborate "off") && over_cap max_rate h.tcp_corroborate_rate_bps) ≡ false
  hop_word : is_hop_probe_word h.tcp_hop_probe ≡ true
  hop_port : (str_eq h.tcp_hop_probe "on" && ltb h.tcp_hop_probe_port 1) ≡ false

validate_hello_tests :
    (h : Hello) (max_rate : ℤ) → validate_hello h max_rate ≡ none → PassesTests h max_rate
unfolding validate_hello
validate_hello_tests h max_rate e = ground arith

validate_hello-none :
    (h : Hello) (max_rate : ℤ) → PassesTests h max_rate → validate_hello h max_rate ≡ none
unfolding validate_hello
validate_hello-none h max_rate t = ground arith

tests-IsAdmissible : (h : Hello) (max_rate : ℤ) → PassesTests h max_rate → IsAdmissible h max_rate
unfolding packet_size_bad over_cap mtr_interval_bad is_hop_probe_word
tests-IsAdmissible h max_rate t = record {
  version = ground (arith, t.version);
  mode = (eq_iff h.mode "loss").0 t.mode;
  token = ground (arith, t.token);
  packet_min = ground (arith, t.packet);
  packet_max = ground (arith, t.packet);
  duration_min = ground (arith, t.duration_min);
  duration_max = ground (arith, t.duration_max);
  rate_min = ground (arith, t.rate_min);
  rate_max = ground (arith, t.rate_max);
  mtr = ground (arith, t.mtr);
  corroborate_min = ground (arith, t.corroborate_min);
  corroborate_max = ground (arith, t.corroborate_max, eq_iff h.tcp_corroborate "off");
  hop_probe = ground (
    arith,
    t.hop_word,
    t.hop_port,
    eq_iff h.tcp_hop_probe "",
    eq_iff h.tcp_hop_probe "off",
    eq_iff h.tcp_hop_probe "auto",
    eq_iff h.tcp_hop_probe "on",
  );
}

IsAdmissible-tests : (h : Hello) (max_rate : ℤ) → IsAdmissible h max_rate → PassesTests h max_rate
unfolding packet_size_bad over_cap mtr_interval_bad is_hop_probe_word
IsAdmissible-tests h max_rate a = record {
  version = ground (arith, a.version);
  mode = (eq_iff h.mode "loss").1 a.mode;
  token = ground (arith, a.token);
  packet = ground (arith, a.packet_min, a.packet_max);
  duration_min = ground (arith, a.duration_min);
  duration_max = ground (arith, a.duration_max);
  rate_min = ground (arith, a.rate_min);
  rate_max = ground (arith, a.rate_max);
  mtr = ground (arith, a.mtr);
  corroborate_min = ground (arith, a.corroborate_min);
  corroborate_max = ground (arith, a.corroborate_max, eq_iff h.tcp_corroborate "off");
  hop_word = ground (
    arith,
    a.hop_probe,
    eq_iff h.tcp_hop_probe "",
    eq_iff h.tcp_hop_probe "off",
    eq_iff h.tcp_hop_probe "auto",
    eq_iff h.tcp_hop_probe "on",
  );
  hop_port = elim a.hop_probe [
    | inl on ↦ ground (arith, on.1)
    | inr (inl e) ↦ rw e
    | inr (inr (inl e)) ↦ rw e
    | inr (inr (inr e)) ↦ rw e
  ];
}

-- `validateHello` accepts a Hello exactly if it is admissible: version 1, mode "loss", a token, a
-- packet size, a duration, rates and an MTR interval within their bounds, and a hop probe word
-- that is one of the four, with a port if it is "on".
pub validate_hello_iff :
    (h : Hello) (max_rate : ℤ) → (validate_hello h max_rate ≡ none) ↔ IsAdmissible h max_rate
validate_hello_iff h max_rate = (
  (λ e. tests-IsAdmissible h max_rate (validate_hello_tests h max_rate e)),
  (λ a. validate_hello-none h max_rate (IsAdmissible-tests h max_rate a)),
)

off-ne-on : ◌≡◌ {A = String} "off" "on" → ⊥
off-ne-on e = cc ((eq_iff "off" "on").1 e)

off-ne-auto : ◌≡◌ {A = String} "off" "auto" → ⊥
off-ne-auto e = cc ((eq_iff "off" "auto").1 e)

-- The reverse stream is on exactly if the client asks for it ("on" or "auto") with a reverse flow
-- id that is not 0 and not its forward one, and then that id is echoed; else the id is 0.
resolve_reverse_stream_cases :
    (pref : String) (reverse forward : ℕ)
    → ((resolve_reverse_stream pref reverse forward ≡ ("on", reverse))
        × ((pref ≡ "on") ⊎ (pref ≡ "auto"))
        × (0 < reverse)
        × (reverse ≢ forward))
      ⊎ ((resolve_reverse_stream pref reverse forward ≡ ("off", 0))
          × (((pref ≢ "on") × (pref ≢ "auto")) ⊎ (reverse ≡ 0) ⊎ (reverse ≡ forward)))
unfolding resolve_reverse_stream
resolve_reverse_stream_cases pref reverse forward = elim (Bool-cases (str_eq pref "off")) [
  | inl e ↦
      let off = (eq_iff pref "off").0 e in inr (rw e, inl (rw off off-ne-on, rw off off-ne-auto))
  | inr n ↦ elim (Bool-cases (str_eq pref "on" || str_eq pref "auto")) [
    | inr w ↦ inr (
      rw (n, w),
      inl (ground (arith, eq_iff pref "on", w), ground (arith, eq_iff pref "auto", w)),
    )
    | inl w ↦ elim (Bool-cases (reverse == 0 || reverse == forward)) [
      | inl z ↦ inr (rw (n, w, z), inr (ground (arith, z)))
      | inr z ↦ inl (
        rw (n, w, z),
        ground (arith, eq_iff pref "on", eq_iff pref "auto", w),
        ground (arith, z),
        ground (arith, z),
      )
    ]
  ]
]
