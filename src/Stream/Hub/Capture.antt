-- ===== src/Stream/Hub/Capture.antt =====
-- Where the reverse-direction target of internal/stream/hub.go comes from: `captureRemote` runs
-- behind the gates of `Run` only, and the first address stays.
use dropline.Prelude.{
  ℕ, List, ◌∷◌, Option, none, some, ltb, length, take, ◌==◌, ◌≡◌, sym, ◌∙◌, subst, arith, inl, inr,
  Bool-cases, Option-cases, some_eq,
}
use dropline.Prelude.Int.{ℤ}
use dropline.Prelude.Dict
use dropline.Prelude.Dict.{Dict, lookup-insert, lookup-erase, Unique, erase_head, lookup_head}
use dropline.Stream.Header.{Header, Decoded, ok, err, decode_header}
use dropline.Stream.Net.{UdpAddr}
use dropline.Stream.Hub.{
  FlowQueue, Hub, HubFlow, new_hub, set_queue, deliver, deliver_to, dispatch_decoded, dispatch,
  close_all, remote_addr,
}
use dropline.Stream.Hub.Cells.{deliver-IsSuccessor, deliver_remote}
use dropline.Stream.Hub.Reach.{
  Reach, start, datagram, registers, releases, receives, pulls, shuts, Traffic, Authentic,
}
use dropline.Stream.Hub.Remotes.{
  Authentic-eq, KeepsRemotes, try_register-KeepsRemotes, release-KeepsRemotes,
  close_entries-KeepsRemotes, pull_local_drops-KeepsRemotes, receive-KeepsRemotes,
}

-- Every captured address is that of an authentic packet.
abbrev IsCaptured : Traffic → Hub → Type 0
IsCaptured ds h =
    (q : ℕ) (fq : FlowQueue) (a : UdpAddr)
    → Dict.lookup q h.queues ≡ some fq
    → fq.remote ≡ some a
    → Authentic ds fq a

KeepsRemotes-IsCaptured :
    (ds : Traffic) (h h' : Hub) → KeepsRemotes h h' → IsCaptured ds h → IsCaptured ds h'
KeepsRemotes-IsCaptured ds h h' k c q fq' a e r = elim (k q fq' e) [
  | inl n ↦ cc
  | inr (fq, e0, same, i, t) ↦ Authentic-eq ds fq fq' a (i, t) (c q fq a e0 (sym same ∙ r))
]

more :
    (ds : Traffic) (d : Decoded) (addr a : UdpAddr) (fq : FlowQueue)
    → Authentic ds fq a
    → Authentic ((d, addr) ∷ ds) fq a
more ds (err e) addr a fq h = h
more ds (ok hdr) addr a fq h = inr h

set_queue-IsCaptured :
    (ds : Traffic) (h : Hub) (q : ℕ) (fq' : FlowQueue)
    → IsCaptured ds h
    → ((a : UdpAddr) → fq'.remote ≡ some a → Authentic ds fq' a)
    → IsCaptured ds (set_queue h q fq')
unfolding set_queue
set_queue-IsCaptured ds h q fq' c new p gq a e r = elim (Bool-cases (q == p)) [
  | inl same ↦
      let e' : fq' ≡ gq = ground (arith, lookup-insert q p fq' h.queues) in
      subst (λ (x : FlowQueue). Authentic ds x a) e' (new a (ground (arith, e')))
  | inr other ↦ c p gq a (ground (arith, lookup-insert q p fq' h.queues)) r
]

deliver-IsCaptured :
    (ds : Traffic) (fq fq' : FlowQueue) (hdr : Header) (addr a : UdpAddr) (arrival : ℤ)
    → deliver fq hdr addr arrival ≡ some fq'
    → ((b : UdpAddr) → fq.remote ≡ some b → Authentic ds fq b)
    → fq'.remote ≡ some a
    → Authentic ((ok hdr, addr) ∷ ds) fq' a
deliver-IsCaptured ds fq fq' hdr addr a arrival e c r =
    let s = deliver-IsSuccessor fq fq' hdr addr arrival e in
    Authentic-eq ((ok hdr, addr) ∷ ds) fq fq' a (s.ip, s.token)
      (elim (deliver_remote fq fq' hdr addr a arrival e r) [
        | inl old ↦ inr (c a old)
        | inr new ↦ inl new
      ])

grow-IsCaptured :
    (ds : Traffic) (h : Hub) (d : Decoded) (addr : UdpAddr)
    → IsCaptured ds h
    → IsCaptured ((d, addr) ∷ ds) h
grow-IsCaptured ds h d addr c q fq a e r = more ds d addr a fq (c q fq a e r)

deliver_to-IsCaptured :
    (ds : Traffic) (h h' : Hub) (o : Option ℕ) (hdr : Header) (addr : UdpAddr) (arrival : ℤ)
    → deliver_to h o hdr addr arrival ≡ some h'
    → IsCaptured ds h
    → IsCaptured ((ok hdr, addr) ∷ ds) h'
unfolding deliver_to
deliver_to-IsCaptured ds h h' none hdr addr arrival e c =
    subst (λ (x : Hub). IsCaptured ((ok hdr, addr) ∷ ds) x) (some_eq e)
      (grow-IsCaptured ds h (ok hdr) addr c)
deliver_to-IsCaptured ds h h' (some q) hdr addr arrival e c =
    elim (Option-cases (Dict.lookup q h.queues)) [
      | inl n ↦ absurd (ground (arith, n, e))
      | inr (fq, found) ↦ elim (Option-cases (deliver fq hdr addr arrival)) [
        | inl n ↦ absurd (ground (arith, n, found, e))
        | inr (fq', done) ↦
            let same : set_queue h q fq' ≡ h' = ground (arith, found, done, e) in
            subst (λ (x : Hub). IsCaptured ((ok hdr, addr) ∷ ds) x) same
              (set_queue-IsCaptured ((ok hdr, addr) ∷ ds) h q fq'
                (grow-IsCaptured ds h (ok hdr) addr c)
                (λ a r.
                  deliver-IsCaptured ds fq fq' hdr addr a arrival done (λ b s. c q fq b found s) r))
      ]
    ]

dispatch_decoded-IsCaptured :
    (ds : Traffic) (h h' : Hub) (d : Decoded) (addr : UdpAddr) (arrival : ℤ)
    → dispatch_decoded h d addr arrival ≡ some h'
    → IsCaptured ds h
    → IsCaptured ((d, addr) ∷ ds) h'
unfolding dispatch_decoded
dispatch_decoded-IsCaptured ds h h' (err x) addr arrival e c =
    subst (λ (y : Hub). IsCaptured ((err x, addr) ∷ ds) y) (some_eq e)
      (grow-IsCaptured ds h (err x) addr c)
dispatch_decoded-IsCaptured ds h h' (ok hdr) addr arrival e c =
    deliver_to-IsCaptured ds h h' (Dict.lookup hdr.flow_id h.flows) hdr addr arrival e c

dispatch-IsCaptured :
    (ds : Traffic) (h h' : Hub) (d : Decoded) (packet : List ℕ) (addr : UdpAddr) (arrival : ℤ)
    → decode_header (take 32 packet) ≡ d
    → dispatch h packet addr arrival ≡ some h'
    → IsCaptured ds h
    → IsCaptured ((d, addr) ∷ ds) h'
unfolding dispatch
dispatch-IsCaptured ds h h' d packet addr arrival is e c =
    elim (Bool-cases (ltb (length packet) 32)) [
      | inl short ↦
          let same : h ≡ h' = ground (arith, short, e) in
          subst (λ (x : Hub). IsCaptured ((d, addr) ∷ ds) x) same (grow-IsCaptured ds h d addr c)
      | inr long ↦
          dispatch_decoded-IsCaptured ds h h' d addr arrival (ground (arith, long, e, is)) c
    ]

Reach-IsCaptured : {ds : Traffic} {h : Hub} → Reach ds h → IsCaptured ds h
unfolding new_hub Dict.lookup
Reach-IsCaptured (start e) = λ q fq a f r. ground (arith, e, f)
Reach-IsCaptured (datagram {ds = ds} {h = h} {h' = h'} {d = d} packet addr arrival r is e) =
    dispatch-IsCaptured ds h h' d packet addr arrival is e (Reach-IsCaptured r)
Reach-IsCaptured (registers {ds = ds} {h = h} {h' = h'} f ring_size ip token r e) =
    KeepsRemotes-IsCaptured ds h h' (try_register-KeepsRemotes h h' f ring_size ip token e)
      (Reach-IsCaptured r)
Reach-IsCaptured (releases {ds = ds} {h = h} {h' = h'} f f' r e) =
    KeepsRemotes-IsCaptured ds h h' (release-KeepsRemotes h h' f f' e) (Reach-IsCaptured r)
Reach-IsCaptured (receives {ds = ds} {h = h} {h' = h'} f obs r e) =
    KeepsRemotes-IsCaptured ds h h' (receive-KeepsRemotes h h' f obs e) (Reach-IsCaptured r)
Reach-IsCaptured (pulls {ds = ds} {h = h} {h' = h'} f r e) =
    KeepsRemotes-IsCaptured ds h h' (pull_local_drops-KeepsRemotes h h' f e) (Reach-IsCaptured r)
Reach-IsCaptured (shuts {ds = ds} {h = h} {h' = h'} r e) =
    KeepsRemotes-IsCaptured ds h h'
      (close_entries-KeepsRemotes h h' h.flows (unfold close_all in e)) (Reach-IsCaptured r)

-- In any run of the hub, the address that a flow's reverse stream is steered at came with a
-- datagram of that run that passed the flow's gates: it carried the flow's token and came from the
-- flow's peer address, where these were set.
pub remote-Authentic :
    {ds : Traffic} {h : Hub} (f : HubFlow) (fq : FlowQueue) (a : UdpAddr)
    → Reach ds h
    → Dict.lookup f.queue h.queues ≡ some fq
    → remote_addr h f ≡ some a
    → Authentic ds fq a
unfolding remote_addr
remote-Authentic {h = h} f fq a r e s = Reach-IsCaptured r f.queue fq a e (ground (arith, e, s))
