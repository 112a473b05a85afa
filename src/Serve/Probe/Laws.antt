-- ===== src/Serve/Probe/Laws.antt =====
-- cmd/dropline/serve.go: who may open a probe, and what the pacing of its reads gives and misses.
use dropline.Prelude.{
  ℕ, suc, ◌+◌, ◌-◌, ◌*◌, ◌/◌, ◌%◌, ◌^◌, ◌<◌, ◌≤◌, String, str_eq, Bool, true, false, Option, none,
  some, if◌then◌else◌, ◌≡◌, refl, ◌↔◌, arith, Option-cases, inl, inr, ap, subst, sym, some_eq,
}
use dropline.Prelude.Int.{ℤ, pos, negsuc, pos_part, ◌-ℤ◌, ◌/ℤ◌, sub_ℕ}
use dropline.Prelude.Words.{to_i64, wrap_i64, to_u64}
use dropline.Serve.Session.{Registry, SessionState, PeerAddr, lookup, slots}
use dropline.Serve.Probe.{
  Verdict, unknown_session, admitted, same_source, admit_known, admit_probe, expected_ns, pause,
}
use native.Mathlib.Nat.{lt-div-mul-add, mul-le-mul_right, div-le_self, div-le_of_le-mul}

admit_known_iff :
    (st st' : SessionState) (max_probes : ℤ) (held : ℕ) (peer : PeerAddr)
    → (admit_known st max_probes held peer ≡ admitted st') ↔ (
        (st ≡ st')
        × (st.tcp_probe_ok ≡ true)
        × (same_source peer st.client_ip ≡ true)
        × (held < slots max_probes))
unfolding admit_known
admit_known_iff st st' mx held peer = ground arith

wrap_small : (a e : ℕ) → a < 2 ^ 63 → e < 2 ^ 63 → wrap_i64 (pos a -ℤ pos e) ≡ sub_ℕ a e
unfolding wrap_i64 to_i64 to_u64 ◌-ℤ◌
wrap_small a e h g = ground arith

expected_exact :
    (rate total : ℕ)
    → total * 8000000000 < 2 ^ 63
    → expected_ns (pos rate) total ≡ pos (total * 8000000000 / rate)
unfolding expected_ns to_i64 ◌/ℤ◌
expected_exact rate total h = ground arith

-- The nanoseconds slept.
abbrev pub waited : Option ℤ → ℕ
waited none = 0
waited (some z) = pos_part z

pause_of :
    (rate total elapsed q : ℕ)
    → 0 < rate
    → wrap_i64 (expected_ns (pos rate) total -ℤ pos elapsed) ≡ sub_ℕ q elapsed
    → q ≤ elapsed + waited (pause (pos rate) total (pos elapsed)) + 10000000
unfolding pause
pause_of rate total elapsed q r h = rw h (ground arith)

extra_exact :
    (rate total elapsed : ℕ)
    → total * 8000000000 < 2 ^ 63
    → elapsed < 2 ^ 63
    → wrap_i64 (expected_ns (pos rate) total -ℤ pos elapsed)
      ≡ sub_ℕ (total * 8000000000 / rate) elapsed
extra_exact rate total elapsed h e = rw (expected_exact rate total h) (
    wrap_small (total * 8000000000 / rate) elapsed
      (omega (arith, div-le_self (total * 8000000000) rate)) e)

-- While the bits received, counted in nanoseconds, fit an int64, the pacing holds: when the sleep
-- after a read is over, the bits received so far are fewer than the negotiated positive rate admits in the
-- time since the start, with 10 ms and one nanosecond added.
pub paced :
    (rate total elapsed : ℕ)
    → 0 < rate
    → total * 8000000000 < 2 ^ 63
    → elapsed < 2 ^ 63
    → total * 8000000000
      < (elapsed + waited (pause (pos rate) total (pos elapsed)) + 10000001) * rate
paced rate total elapsed r h e =
    let q = total * 8000000000 / rate in
    let w = waited (pause (pos rate) total (pos elapsed)) in
    let bound : q + 1 ≤ elapsed + w + 10000001 =
      omega (arith, pause_of rate total elapsed q r (extra_exact rate total elapsed h e)) in
    let below : (q + 1) * rate ≤ (elapsed + w + 10000001) * rate = mul-le-mul_right _ bound in
    omega (arith, below, lt-div-mul-add {a = total * 8000000000} {b = rate} r)

-- What the product has wrapped to, one size up from an int64.
deficit :
    (rate total : ℕ)
    → 2 ^ 63 ≤ total * 8000000000
    → total * 8000000000 < 2 ^ 64
    → expected_ns (pos rate) total ≡ sub_ℕ 0 ((2 ^ 64 - total * 8000000000) / rate)
unfolding expected_ns to_i64 ◌/ℤ◌
deficit rate total h g =
    let wrapped : to_i64 (total * 8 % 2 ^ 64 * 1000000000 % 2 ^ 64)
        ≡ negsuc (2 ^ 64 - 1 - total * 8000000000) =
      ground arith in
    let whole : suc (2 ^ 64 - 1 - total * 8000000000) ≡ 2 ^ 64 - total * 8000000000 = omega arith in
    rw (wrapped, whole) refl

half : (n rate : ℕ) → n ≤ 2 ^ 63 → 2 ≤ rate → n / rate ≤ 2 ^ 62
half n rate h g = div-le_of_le-mul rate (omega arith)

wrap_negative :
    (m elapsed : ℕ)
    → m ≤ 2 ^ 62
    → elapsed ≤ 2 ^ 62
    → pos_part (wrap_i64 (sub_ℕ 0 m -ℤ pos elapsed)) ≡ 0
unfolding wrap_i64 to_i64 to_u64 ◌-ℤ◌
wrap_negative m elapsed h g = ground arith

no_pause :
    (rate total : ℕ) (elapsed : ℤ)
    → pos_part (wrap_i64 (expected_ns (pos rate) total -ℤ elapsed)) ≡ 0
    → pause (pos rate) total elapsed ≡ none
unfolding pause
no_pause rate total elapsed h = ground arith

-- Once the bits received, counted in nanoseconds, need 64 bits, the product has wrapped to a
-- negative number, and the loop does not sleep, however far the peer is over its rate: for every
-- rate from 2 bit/s, up to the time 2 ^ 62 ns after the start.
pub unpaced :
    (rate total elapsed : ℕ)
    → 2 ≤ rate
    → 2 ^ 63 ≤ total * 8000000000
    → total * 8000000000 < 2 ^ 64
    → elapsed ≤ 2 ^ 62
    → pause (pos rate) total (pos elapsed) ≡ none
unpaced rate total elapsed r h g e = no_pause rate total (pos elapsed) (
    rw (deficit rate total h g)
      (wrap_negative _ elapsed (half (2 ^ 64 - total * 8000000000) rate (omega arith) r) e))

named_iff :
    (c : Bool) (v : Verdict) (st : SessionState)
    → ((if c then unknown_session else v) ≡ admitted st) ↔ ((c ≡ false) × (v ≡ admitted st))
named_iff true v st = ground arith
named_iff false v st = ground arith

found_iff :
    (c : Bool) (st st' : SessionState) (max_probes : ℤ) (held : ℕ) (peer : PeerAddr)
    → ((if c then unknown_session else admit_known st' max_probes held peer) ≡ admitted st) ↔ (
        (some st' ≡ some st)
        × (c ≡ false)
        × (st.tcp_probe_ok ≡ true)
        × (same_source peer st.client_ip ≡ true)
        × (held < slots max_probes))
found_iff c st st' max_probes held peer =
    let named = named_iff c (admit_known st' max_probes held peer) st in
    let known = admit_known_iff st' st max_probes held peer in
    (
      (λ h.
          let (free, v) = named.0 h in
          let (same, ok, from, room) = known.0 v in
          (
            ap some same,
            free,
            subst (λ (x : SessionState). x.tcp_probe_ok ≡ true) same ok,
            subst (λ (x : SessionState). same_source peer x.client_ip ≡ true) same from,
            room,
          )),
      (λ (same, free, ok, from, room). named.1 (
        free,
        known.1 (
          some_eq same,
          subst (λ (x : SessionState). x.tcp_probe_ok ≡ true) (sym (some_eq same)) ok,
          subst (λ (x : SessionState). same_source peer x.client_ip ≡ true) (sym (some_eq same))
              from,
          room,
        ),
      )),
    )

-- A probe is admitted exactly when its id names a live session and is not empty, that session negotiated the
-- probe, the peer's IPv4 address is the one of the session's control connection, and a slot is
-- free; the admitted state is then that session's.
admit_probe_iff :
    (reg : Registry) (max_probes : ℤ) (held : ℕ) (sid : String) (peer : PeerAddr)
    (st : SessionState)
    → (admit_probe reg max_probes held sid peer ≡ admitted st) ↔ (
        (lookup sid reg ≡ some st)
        × (str_eq sid "" ≡ false)
        × (st.tcp_probe_ok ≡ true)
        × (same_source peer st.client_ip ≡ true)
        × (held < slots max_probes))
unfolding admit_probe
admit_probe_iff reg max_probes held sid peer st = elim (Option-cases (lookup sid reg)) [
  | inl e ↦ rw (e, admit_probe) (ground arith)
  | inr (st', e) ↦ rw (e, admit_probe) (found_iff (str_eq sid "") st st' max_probes held peer)
]
