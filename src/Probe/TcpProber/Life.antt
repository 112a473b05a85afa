-- ===== src/Probe/TcpProber/Life.antt =====
-- internal/probe/probe_tcp_unix.go: one probe from its registration to what its dial returns, with
-- the packets that `recvLoop` takes in between.
use dropline.Prelude.{
  ℕ, ◌+◌, ◌-◌, String, List, [], ◌∷◌, Bool, true, false, ◌&&◌, Option, none, some, length,
  if◌then◌else◌, ◌≡◌, refl, sym, subst, arith, Bool-cases, Option-cases, some_eq, inl, inr,
}
use dropline.Prelude.Int.{ℤ}
use dropline.Prelude.Dict.{Dict, lookup, insert, erase, lookup-erase, lookup-insert}
use dropline.Prelude.Floats.{Floats}
use dropline.Stream.Net.{Ip}
use dropline.Probe.Parse.{Message, TcpAnswer, parse_tcp_reply}
use dropline.Probe.HopState.{Reply}
use dropline.Probe.Flight.{
  Entry, Flight, in_table, register, modify, hop_sent, settle, credit, rollback_probe,
}
use dropline.Probe.Flight.Balance.{one_if}
use dropline.Probe.Flight.Keeps.{
  IsBalanced, register-IsBalanced, settle-IsBalanced, record_terminus-IsBalanced,
  rollback-IsBalanced,
}
use dropline.Probe.TcpProber.{
  TcpProber, Dial, connected, errno, failed, start_probe, finish_probe, receive_tcp,
  take_tcp_answer, is_connected, is_tcp_terminus_error, is_bind_collision_error,
  is_control_setup_error, conn_refused, conn_reset, another, addr_in_use, addr_not_avail, perm,
  acces, no_proto_opt,
}

-- The errors of a probe that never went out: its port or a socket option was refused.
abbrev pub never_sent : Dial → Bool
never_sent (errno addr_in_use) = true
never_sent (errno addr_not_avail) = true
never_sent (errno perm) = true
never_sent (errno acces) = true
never_sent (errno no_proto_opt) = true
never_sent d = false

abbrev pub is_some {ℓ} : {A : Type ℓ} → Option A → Bool
is_some none = false
is_some (some a) = true

-- If a port is in flight, then with this TTL.
abbrev Owns : ℕ → ℕ → Dict Entry → Type 0
Owns port ttl m = (e : Entry) → lookup port m ≡ some e → e.ttl ≡ ttl

Owns-erase : (key port ttl : ℕ) (m : Dict Entry) → Owns port ttl m → Owns port ttl (erase key m)
Owns-erase key port ttl m own e at = own e (ground (arith, lookup-erase key port m))

Owns-insert :
    (port ttl : ℕ) (now : ℤ) (m : Dict Entry)
    → Owns port ttl (insert port (record { ttl = ttl; sent_at = now }) m)
Owns-insert port ttl now m e at =
    ground (arith, lookup-insert port port (record { ttl = ttl; sent_at = now }) m)

register-Owns :
    {F : Type 0} (port ttl : ℕ) (now : ℤ) (p : Flight F) {p' : Flight F}
    → register port ttl now p ≡ some p'
    → Owns port ttl p'.inflight
unfolding register
register-Owns {F} port ttl now p {p'} done = elim (Bool-cases (in_table ttl (length p.hops))) [
  | inr out ↦ cc
  | inl inside ↦
      let p1 : Flight F = record p {
        inflight = insert port (record { ttl = ttl; sent_at = now }) p.inflight;
        hops = modify (ttl - 1) hop_sent p.hops;
      } in
      subst (λ (f : Flight F). Owns port ttl f.inflight) {x = p1} {y = p'} (some_eq (ground arith))
        (Owns-insert port ttl now p.inflight)
]

module _ {F : Type 0} (fl : Floats F) where
  credit-inflight :
      (ttl : ℕ) (r : Reply F) (p : Flight F) → (credit fl ttl r p).inflight ≡ p.inflight
  unfolding credit
  credit-inflight ttl r p = ground arith

  settle-Owns :
      (key port ttl : ℕ) (from : Option String) (now : ℤ) (echo : Bool) (p : Flight F)
      → Owns port ttl p.inflight
      → Owns port ttl (settle fl key from now echo p).inflight
  unfolding settle
  settle-Owns key port ttl from now echo p own = elim (Option-cases (lookup key p.inflight)) [
    | inl absent ↦ rw (absent, settle) own
    | inr (e, found) ↦
        rw (found, settle)
          (subst (Owns port ttl) (sym (credit-inflight e.ttl _ _))
            (Owns-erase key port ttl p.inflight own))
  ]

  -- What a packet leaves as it was: the balance, and the TTL of the port.
  abbrev Keeps : ℕ → (ℕ → ℕ) → ℕ → ℕ → TcpProber F → Type 0
  Keeps n sends port ttl p = IsBalanced n sends p.flight × Owns port ttl p.flight.inflight

  answer-Keeps :
      {n : ℕ} {sends : ℕ → ℕ} (port ttl : ℕ) (text : Ip → Option String) (now : ℤ)
      (answer : TcpAnswer) (p : TcpProber F)
      → Keeps n sends port ttl p
      → Keeps n sends port ttl (take_tcp_answer fl text now answer p)
  unfolding take_tcp_answer
  answer-Keeps port ttl text now TcpAnswer.ignored p k = k
  answer-Keeps port ttl text now (TcpAnswer.exceeded key from) p (v, own) = (
    settle-IsBalanced fl key (text from) now false p.flight v,
    settle-Owns key port ttl (text from) now false p.flight own,
  )

  started-Keeps :
      {n : ℕ} {sends : ℕ → ℕ} (port ttl : ℕ) (now : ℤ) (p : TcpProber F) {started : TcpProber F}
      → IsBalanced n sends p.flight
      → lookup port p.flight.inflight ≡ none
      → start_probe port ttl now p ≡ some started
      → Keeps n (λ t. one_if ttl t + sends t) port ttl started
  unfolding start_probe
  started-Keeps {n} {sends} port ttl now p {started} v fresh done =
      elim (Option-cases (register port ttl now p.flight)) [
        | inl refused ↦ cc
        | inr (flight, ok) ↦
            let p' : TcpProber F = record p { flight = flight } in
            subst (Keeps n (λ t. one_if ttl t + sends t) port ttl) {x = p'} {y = started}
              (some_eq (ground arith))
              (
                register-IsBalanced port ttl now p.flight v fresh ok,
                register-Owns port ttl now p.flight ok,
              )
      ]

  unsent :
      {n : ℕ} (sends : ℕ → ℕ) (port ttl : ℕ) (p : TcpProber F)
      → Keeps n (λ t. one_if ttl t + sends t) port ttl p
      → IsBalanced n
          (λ t. if is_some (lookup port p.flight.inflight) then sends t else one_if ttl t + sends t)
          (rollback_probe port ttl p.flight)
  unfolding rollback_probe
  unsent sends port ttl p (v, own) = elim (Option-cases (lookup port p.flight.inflight)) [
    | inl absent ↦ rw (absent, rollback_probe) v
    | inr (e, found) ↦ rw found (rollback-IsBalanced port ttl e p.flight v found (own e found))
  ]

  -- The end of a probe of the prober: which probes have been sent then.
  finish-IsBalanced :
      {n : ℕ} (sends : ℕ → ℕ) (port ttl : ℕ) (target : Option String) (rtt : F) (dial : Dial)
      (p : TcpProber F)
      → Keeps n (λ t. one_if ttl t + sends t) port ttl p
      → IsBalanced n
          (λ t.
            if never_sent dial && is_some (lookup port p.flight.inflight)
            then sends t
            else one_if ttl t + sends t)
          (finish_probe fl port ttl target rtt dial p).0.flight
        × ((finish_probe fl port ttl target rtt dial p).1 ≡ never_sent dial)
  unfolding finish_probe is_connected is_tcp_terminus_error is_bind_collision_error
      is_control_setup_error
  finish-IsBalanced sends port ttl target rtt connected p (v, own) =
      (record_terminus-IsBalanced fl port ttl target rtt p.flight v own, refl)
  finish-IsBalanced sends port ttl target rtt (errno conn_refused) p (v, own) =
      (record_terminus-IsBalanced fl port ttl target rtt p.flight v own, refl)
  finish-IsBalanced sends port ttl target rtt (errno conn_reset) p (v, own) =
      (record_terminus-IsBalanced fl port ttl target rtt p.flight v own, refl)
  finish-IsBalanced sends port ttl target rtt (errno addr_in_use) p k =
      (unsent sends port ttl p k, refl)
  finish-IsBalanced sends port ttl target rtt (errno addr_not_avail) p k =
      (unsent sends port ttl p k, refl)
  finish-IsBalanced sends port ttl target rtt (errno perm) p k = (unsent sends port ttl p k, refl)
  finish-IsBalanced sends port ttl target rtt (errno acces) p k = (unsent sends port ttl p k, refl)
  finish-IsBalanced sends port ttl target rtt (errno no_proto_opt) p k =
      (unsent sends port ttl p k, refl)
  finish-IsBalanced sends port ttl target rtt (errno another) p (v, own) = (v, refl)
  finish-IsBalanced sends port ttl target rtt failed p (v, own) = (v, refl)

  module _ (parse : List ℕ → Option Message) (text : Ip → Option String) (target : Ip)
      (dst : ℕ) where
    -- The packets that come in, each with its time and its sender.
    unfoldable pub receive_all : List (ℤ × List ℕ × Ip) → TcpProber F → TcpProber F
    receive_all [] p = p
    receive_all ((now, packet, src) ∷ packets) p =
        receive_all packets (receive_tcp fl parse text target dst now packet src p)

    all-Keeps :
        {n : ℕ} {sends : ℕ → ℕ} (port ttl : ℕ) (packets : List (ℤ × List ℕ × Ip)) (p : TcpProber F)
        → Keeps n sends port ttl p
        → Keeps n sends port ttl (receive_all packets p)
    unfolding receive_all receive_tcp
    all-Keeps port ttl [] p k = k
    all-Keeps port ttl ((now, packet, src) ∷ packets) p k =
        all-Keeps port ttl packets (receive_tcp fl parse text target dst now packet src p)
          (answer-Keeps port ttl text now (parse_tcp_reply parse packet src target dst) p k)

    -- A TCP probe under a port that is not in flight, from its registration, through any packets
    -- that come in, to what its dial returns: the counters of every hop, the map and the terminus
    -- are in step at the end, with the probe counted as sent, unless its port or a socket option
    -- was refused while it was in flight, which takes it back; and the probe returns an error
    -- exactly if one of these was refused, its port too, which the comment on `probe` leaves out.
    pub probe-IsBalanced :
        {n : ℕ} {sends : ℕ → ℕ} (port ttl : ℕ) (now : ℤ) (packets : List (ℤ × List ℕ × Ip))
        (rtt : F) (dial : Dial) (p : TcpProber F) {started : TcpProber F}
        → IsBalanced n sends p.flight
        → lookup port p.flight.inflight ≡ none
        → start_probe port ttl now p ≡ some started
        → IsBalanced n
            (λ t.
              if never_sent dial
                && is_some (lookup port (receive_all packets started).flight.inflight)
              then sends t
              else one_if ttl t + sends t)
            (finish_probe fl port ttl (text target) rtt dial (receive_all packets started)).0.flight
          × ((finish_probe fl port ttl (text target) rtt dial (receive_all packets started)).1
              ≡ never_sent dial)
    probe-IsBalanced {n} {sends} port ttl now packets rtt dial p {started} v fresh done =
        finish-IsBalanced sends port ttl (text target) rtt dial (receive_all packets started)
          (all-Keeps port ttl packets started (started-Keeps port ttl now p v fresh done))
