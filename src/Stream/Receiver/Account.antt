-- ===== src/Stream/Receiver/Account.antt =====
-- internal/stream/receiver.go and hub.go: every datagram for a flow is accounted for, in both modes
-- of the receiver.
use dropline.Prelude.{
  ℕ, ◌+◌, ◌-◌, ◌^◌, ◌<◌, List, [], ◌∷◌, ◌++◌, none, some, length, length-append, ltb, if◌then◌else◌,
  ◌≡◌, refl, sym, ap, ◌∙◌, subst, arith, inl, inr, Bool-cases,
}
use dropline.Prelude.Int.{ℤ}
use dropline.Prelude.Counters.{is_pos64}
use dropline.Prelude.Floats.{Floats}
use dropline.Stream.Header.{Header}
use dropline.Stream.Net.{UdpAddr}
use dropline.Stream.Stats.{
  Counts, Accumulator, observe_seq, observe_all, observe, add_local_drop, new_accumulator,
}
use dropline.Stream.Stats.Conservation.{received}
use dropline.Stream.Hub.{Observation, FlowQueue, capture_remote, offer, deliver, receive_from}
use dropline.Stream.Hub.Cells.{passes, receive_from_lem}
use dropline.Stream.Receiver.{
  ReceiverConfig, Direct, accept_packet, push, drain, stat, apply_hub_local_drops,
}

-- The sequence numbers of observations.
abbrev pub seqs : List Observation → List ℕ
seqs [] = []
seqs (obs ∷ os) = obs.h.seq ∷ seqs os

observe_all-append :
    (c : Counts) (xs : List ℕ) (s : ℕ)
    → observe_all c (xs ++ (s ∷ [])) ≡ observe_seq (observe_all c xs) s
unfolding observe_all
observe_all-append c [] s = refl
observe_all-append c (x ∷ xs) s = observe_all-append (observe_seq c x) xs s

deliver_sum :
    (fq fq' : FlowQueue) (h : Header) (addr : UdpAddr) (arrival : ℤ)
    → deliver fq h addr arrival ≡ some fq'
    → fq.local_drops < 2 ^ 63
    → length fq'.buffer + fq'.local_drops
      ≡ length fq.buffer + fq.local_drops + (if passes fq h addr then 1 else 0)
unfolding deliver offer capture_remote
deliver_sum fq fq' h addr arrival e small =
    let obs : Observation = record { h = h; arrival = arrival } in
    ground (arith, length-append fq.buffer (obs ∷ []))

module _ {F : Type 0} ⦃fl : Floats F⦄ where
  -- Runs of a receiver with its own socket: the number of datagrams for the flow that were read, and
  -- the sequence numbers that `stat` has taken, oldest first.
  pub data DirectRun (cfg : ReceiverConfig) : ℕ → List ℕ → Direct F → Type 0 where
    begins :
        (d : Direct F) (t0 : ℤ) → d.ring ≡ [] → d.acc ≡ new_accumulator t0 → DirectRun cfg 0 [] d
    skips :
        {n : ℕ} {xs : List ℕ} (d d' : Direct F) (packet : List ℕ) (arrival : ℤ)
        → DirectRun cfg n xs d
        → accept_packet cfg packet ≡ none
        → drain cfg d packet arrival ≡ d'
        → DirectRun cfg n xs d'
    reads :
        {n : ℕ} {xs : List ℕ} (d d' : Direct F) (packet : List ℕ) (arrival : ℤ) (h : Header)
        → DirectRun cfg n xs d
        → accept_packet cfg packet ≡ some h
        → drain cfg d packet arrival ≡ d'
        → DirectRun cfg (n + 1) xs d'
    counts :
        {n : ℕ} {xs : List ℕ} (d : Direct F) (obs : Observation) (rest : List Observation)
        → DirectRun cfg n xs d
        → d.ring ≡ obs ∷ rest
        → DirectRun cfg n (xs ++ (obs.h.seq ∷ [])) (record d { ring = rest; acc = stat d.acc obs })

  observe-counts :
      (a : Accumulator F) (obs : Observation) → (stat a obs).counts ≡ observe_seq a.counts obs.h.seq
  unfolding stat observe
  observe-counts a obs = ground arith

  observe-local_drops :
      (a : Accumulator F) (obs : Observation) → (stat a obs).local_drops ≡ a.local_drops
  unfolding stat observe
  observe-local_drops a obs = ground arith

  abbrev pub IsAccounted : ℕ → List ℕ → List Observation → ℕ → Accumulator F → Type 0
  IsAccounted n xs waiting dropped a =
      (n ≡ length xs + length waiting + dropped + a.local_drops) × (a.counts ≡ received xs)

  push-IsAccounted :
      (n : ℕ) (xs : List ℕ) (d : Direct F) (obs : Observation)
      → n < 2 ^ 64 - 1
      → IsAccounted n xs d.ring 0 d.acc
      → IsAccounted (n + 1) xs (push d obs).ring 0 (push d obs).acc
  unfolding push add_local_drop
  push-IsAccounted n xs d obs small (e, c) = elim (Bool-cases (ltb (length d.ring) d.ring_size)) [
    | inl room ↦ rw room (omega (arith, length-append d.ring (obs ∷ [])), c)
    | inr full ↦ rw full (omega arith, c)
  ]

  stat-IsAccounted :
      (n dropped : ℕ) (xs : List ℕ) (obs : Observation) (rest : List Observation)
      (a : Accumulator F)
      → IsAccounted n xs (obs ∷ rest) dropped a
      → IsAccounted n (xs ++ (obs.h.seq ∷ [])) rest dropped (stat a obs)
  stat-IsAccounted n dropped xs obs rest a (e, c) = (
    omega (arith, length-append xs (obs.h.seq ∷ []), observe-local_drops a obs),
    observe-counts a obs
        ∙ ap (λ (k : Counts). observe_seq k obs.h.seq) c
        ∙ sym (observe_all-append _ xs obs.h.seq),
  )

  fresh :
      (a : Accumulator F) (t0 : ℤ)
      → a ≡ new_accumulator t0
      → (a.local_drops ≡ 0) × (a.counts ≡ received [])
  fresh a t0 e =
      subst (λ (x : Accumulator F). (x.local_drops ≡ 0) × (x.counts ≡ received [])) (sym e)
        (unfold new_accumulator in (refl, unfold observe_all in refl))

  drain-none :
      (cfg : ReceiverConfig) (d : Direct F) (packet : List ℕ) (arrival : ℤ)
      → accept_packet cfg packet ≡ none
      → drain cfg d packet arrival ≡ d
  unfolding drain
  drain-none cfg d packet arrival e = rw (e, drain) refl

  drain-some :
      (cfg : ReceiverConfig) (d : Direct F) (packet : List ℕ) (arrival : ℤ) (h : Header)
      → accept_packet cfg packet ≡ some h
      → drain cfg d packet arrival ≡ push d (record { h = h; arrival = arrival })
  unfolding drain
  drain-some cfg d packet arrival h e = rw (e, drain) refl

  abbrev DirectAccounted : ℕ → List ℕ → Direct F → Type 0
  DirectAccounted n xs d = IsAccounted n xs d.ring 0 d.acc

  -- In every run of a receiver with its own socket, after fewer than 2 ^ 64 datagrams for the flow,
  -- each of them was observed, waits in the ring, or was counted as a local drop, exactly once; and
  -- the loss counters are those of the observed sequence numbers in their order.
  pub direct-IsAccounted :
      {cfg : ReceiverConfig} {n : ℕ} {xs : List ℕ} {d : Direct F}
      → DirectRun cfg n xs d
      → n < 2 ^ 64
      → IsAccounted n xs d.ring 0 d.acc
  direct-IsAccounted (begins d t0 e a) small =
      let (none_yet, c) = fresh d.acc t0 a in
      (omega (arith, none_yet, ap (λ (q : List Observation). length q) e), c)
  direct-IsAccounted (skips {n = n} {xs = xs} d d' packet arrival r e g) small =
      subst (DirectAccounted n xs) (sym (drain-none _ d packet arrival e) ∙ g)
        (direct-IsAccounted r small)
  direct-IsAccounted (reads {n = n} {xs = xs} d d' packet arrival h r e g) small =
      subst (DirectAccounted (n + 1) xs) (sym (drain-some _ d packet arrival h e) ∙ g) (
        push-IsAccounted n xs d (record { h = h; arrival = arrival }) (omega arith)
          (direct-IsAccounted r (omega arith)))
  direct-IsAccounted (counts {n = n} {xs = xs} d obs rest r e) small =
      stat-IsAccounted n 0 xs obs rest d.acc (
        subst (λ (q : List Observation). IsAccounted n xs q 0 d.acc) e (direct-IsAccounted r small))

  -- Runs of a receiver behind the hub: the number of datagrams that passed the gates of its flow,
  -- and the sequence numbers that `statHub` has taken, oldest first.
  pub data HubRun : ℕ → List ℕ → FlowQueue → Accumulator F → Type 0 where
    begins :
        (fq : FlowQueue) (a : Accumulator F) (t0 : ℤ)
        → fq.buffer ≡ []
        → fq.local_drops ≡ 0
        → a ≡ new_accumulator t0
        → HubRun 0 [] fq a
    arrives :
        {n : ℕ} {xs : List ℕ} (fq fq' : FlowQueue) (a : Accumulator F) (h : Header) (addr : UdpAddr)
        (arrival : ℤ)
        → HubRun n xs fq a
        → deliver fq h addr arrival ≡ some fq'
        → HubRun (n + (if passes fq h addr then 1 else 0)) xs fq' a
    takes :
        {n : ℕ} {xs : List ℕ} (fq fq' : FlowQueue) (a : Accumulator F) (obs : Observation)
        → HubRun n xs fq a
        → receive_from fq fq.buffer ≡ some (obs, fq')
        → HubRun n (xs ++ (obs.h.seq ∷ [])) fq' (stat a obs)
    ticks :
        {n : ℕ} {xs : List ℕ} (fq : FlowQueue) (a : Accumulator F)
        → HubRun n xs fq a
        → HubRun n xs (apply_hub_local_drops fq a).0 (apply_hub_local_drops fq a).1

  abbrev HubAccounted : ℕ → List ℕ → FlowQueue → Accumulator F → Type 0
  HubAccounted n xs fq a = IsAccounted n xs fq.buffer fq.local_drops a

  ticks-IsAccounted :
      (n : ℕ) (xs : List ℕ) (fq : FlowQueue) (a : Accumulator F)
      → n < 2 ^ 63
      → HubAccounted n xs fq a
      → HubAccounted n xs (apply_hub_local_drops fq a).0 (apply_hub_local_drops fq a).1
  unfolding apply_hub_local_drops add_local_drop
  ticks-IsAccounted n xs fq a small (e, c) = elim (Bool-cases (is_pos64 fq.local_drops)) [
    | inl some_drops ↦ rw some_drops (omega arith, c)
    | inr no_drops ↦ rw no_drops (ground arith, c)
  ]

  takes-IsAccounted :
      (n : ℕ) (xs : List ℕ) (fq fq' : FlowQueue) (a : Accumulator F) (obs : Observation)
      → receive_from fq fq.buffer ≡ some (obs, fq')
      → HubAccounted n xs fq a
      → HubAccounted n (xs ++ (obs.h.seq ∷ [])) fq' (stat a obs)
  takes-IsAccounted n xs fq fq' a obs r k =
      let (rest, waiting, same) = receive_from_lem fq fq' fq.buffer obs r in
      subst (λ (q : FlowQueue). HubAccounted n (xs ++ (obs.h.seq ∷ [])) q (stat a obs)) (sym same)
        (stat-IsAccounted n fq.local_drops xs obs rest a
          (subst (λ (q : List Observation). IsAccounted n xs q fq.local_drops a) waiting k))

  arrives-IsAccounted :
      (n : ℕ) (xs : List ℕ) (fq fq' : FlowQueue) (a : Accumulator F) (h : Header) (addr : UdpAddr)
      (arrival : ℤ)
      → deliver fq h addr arrival ≡ some fq'
      → n < 2 ^ 63
      → HubAccounted n xs fq a
      → HubAccounted (n + (if passes fq h addr then 1 else 0)) xs fq' a
  arrives-IsAccounted n xs fq fq' a h addr arrival e small (e', c) =
      (omega (arith, deliver_sum fq fq' h addr arrival e (omega arith)), c)

  -- In every run of a receiver behind the hub, after fewer than 2 ^ 63 datagrams that passed the
  -- gates of its flow, each of them was observed, waits in the channel, or was counted as a local
  -- drop, by the hub or, once pulled, by the accumulator, exactly once; and the loss counters are
  -- those of the observed sequence numbers in their order.
  pub hub-IsAccounted :
      {n : ℕ} {xs : List ℕ} {fq : FlowQueue} {a : Accumulator F}
      → HubRun n xs fq a
      → n < 2 ^ 63
      → IsAccounted n xs fq.buffer fq.local_drops a
  hub-IsAccounted (begins fq a t0 e d f) small =
      let (none_yet, c) = fresh a t0 f in
      (omega (arith, none_yet, d, ap (λ (q : List Observation). length q) e), c)
  hub-IsAccounted (arrives {n = n} {xs = xs} fq fq' a h addr arrival r e) small =
      arrives-IsAccounted n xs fq fq' a h addr arrival e (omega arith)
        (hub-IsAccounted r (omega arith))
  hub-IsAccounted (takes {n = n} {xs = xs} fq fq' a obs r e) small =
      takes-IsAccounted n xs fq fq' a obs e (hub-IsAccounted r small)
  hub-IsAccounted (ticks {n = n} {xs = xs} fq a r) small =
      ticks-IsAccounted n xs fq a small (hub-IsAccounted r small)
