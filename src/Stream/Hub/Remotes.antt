-- ===== src/Stream/Hub/Remotes.antt =====
-- internal/stream/hub.go: the steps that capture no address: registrations, releases, receives and
-- pulls keep every queue's gates and its remote.
use dropline.Prelude.{
  ℕ, [], ◌∷◌, true, Option, none, some, ◌==◌, ◌≡◌, refl, ◌∙◌, subst, arith, ◌⊎◌, inl, inr,
  Bool-cases, Option-cases, some_eq,
}
use dropline.Prelude.Int.{ℤ}
use dropline.Prelude.Dict
use dropline.Prelude.Dict.{Dict, lookup-insert, lookup-erase, Unique, erase_head, lookup_head}
use dropline.Stream.Header.{Header, ok, err}
use dropline.Stream.Net.{Ip, UdpAddr}
use dropline.Stream.Hub.{
  Observation, FlowQueue, Hub, HubFlow, set_queue, new_queue, try_register, close_queue,
  close_entries, release_once, release, pull_local_drops, receive, receive_from, ip_ok, token_ok,
}
use dropline.Stream.Hub.Cells.{passes, receive_from_lem}
use dropline.Stream.Hub.Invariant.{registered}
use dropline.Stream.Hub.Reach.{Traffic, Authentic}

-- What a queue is known by outside: its gates and its captured address.
abbrev pub SameGates : FlowQueue → FlowQueue → Type 0
SameGates fq fq' =
    (fq'.expected_peer_ip ≡ fq.expected_peer_ip) × (fq'.expected_token ≡ fq.expected_token)

passes-eq :
    (fq fq' : FlowQueue) (hdr : Header) (addr : UdpAddr)
    → SameGates fq fq'
    → passes fq' hdr addr ≡ passes fq hdr addr
passes-eq fq fq' hdr addr g = unfold ip_ok token_ok in ground (arith, g.0, g.1)

pub Authentic-eq :
    (ds : Traffic) (fq fq' : FlowQueue) (a : UdpAddr)
    → SameGates fq fq'
    → Authentic ds fq a
    → Authentic ds fq' a
Authentic-eq [] fq fq' a g h = h
Authentic-eq ((err e, addr) ∷ ds) fq fq' a g h = Authentic-eq ds fq fq' a g h
Authentic-eq ((ok hdr, addr) ∷ ds) fq fq' a g (inl (p, e)) =
    inl (passes-eq fq fq' hdr addr g ∙ p, e)
Authentic-eq ((ok hdr, addr) ∷ ds) fq fq' a g (inr h) = inr (Authentic-eq ds fq fq' a g h)

-- A step that captures nothing.
abbrev pub KeepsRemotes : Hub → Hub → Type 0
KeepsRemotes h h' =
    (q : ℕ) (fq' : FlowQueue)
    → Dict.lookup q h'.queues ≡ some fq'
    → (fq'.remote ≡ none)
      ⊎ ((fq : FlowQueue) × (Dict.lookup q h.queues ≡ some fq)
          × (fq'.remote ≡ fq.remote)
          × (fq'.expected_peer_ip ≡ fq.expected_peer_ip)
          × (fq'.expected_token ≡ fq.expected_token))

pub KeepsRemotes-refl : (h : Hub) → KeepsRemotes h h
KeepsRemotes-refl h q fq e = inr (fq, e, refl, refl, refl)

pub KeepsRemotes-trans : (a b c : Hub) → KeepsRemotes a b → KeepsRemotes b c → KeepsRemotes a c
KeepsRemotes-trans a b c k l q fq'' e = elim (l q fq'' e) [
  | inl n ↦ inl n
  | inr (fq', e', r, i, t) ↦ elim (k q fq' e') [
    | inl n ↦ inl (r ∙ n)
    | inr (fq, e0, r0, i0, t0) ↦ inr (fq, e0, r ∙ r0, i ∙ i0, t ∙ t0)
  ]
]

pub set_queue-KeepsRemotes :
    (h : Hub) (q : ℕ) (fq fq' : FlowQueue)
    → Dict.lookup q h.queues ≡ some fq
    → fq'.remote ≡ fq.remote
    → SameGates fq fq'
    → KeepsRemotes h (set_queue h q fq')
unfolding set_queue
set_queue-KeepsRemotes h q fq fq' e r g p gq s = elim (Bool-cases (q == p)) [
  | inl same ↦ inr (
    fq,
    ground (arith, e, same),
    ground (arith, lookup-insert q p fq' h.queues),
    ground (arith, lookup-insert q p fq' h.queues),
    ground (arith, lookup-insert q p fq' h.queues),
  )
  | inr other ↦ inr (gq, ground (arith, lookup-insert q p fq' h.queues), refl, refl, refl)
]

pub KeepsRemotes-eq : (h h1 h2 : Hub) → h1 ≡ h2 → KeepsRemotes h h1 → KeepsRemotes h h2
KeepsRemotes-eq h h1 h2 e k = subst (λ (x : Hub). KeepsRemotes h x) e k

pub registered-KeepsRemotes :
    (h : Hub) (f : ℕ) (fq : FlowQueue) → fq.remote ≡ none → KeepsRemotes h (registered h f fq)
registered-KeepsRemotes h f fq n p gq s = elim (Bool-cases (h.next_queue == p)) [
  | inl same ↦ inl (ground (arith, lookup-insert h.next_queue p fq h.queues))
  | inr other ↦ inr (gq, ground (arith, lookup-insert h.next_queue p fq h.queues), refl, refl, refl)
]

pub try_register-KeepsRemotes :
    (h h' : Hub) (f : ℕ) (ring_size : ℤ) (ip : Option Ip) (token : ℕ)
    → (try_register h f ring_size ip token).0 ≡ h'
    → KeepsRemotes h h'
unfolding try_register
try_register-KeepsRemotes h h' f ring_size ip token s =
    elim (Option-cases (Dict.lookup f h.flows)) [
      | inr (q, e) ↦ KeepsRemotes-eq h h h' (ground (arith, e, s)) (KeepsRemotes-refl h)
      | inl e ↦
          let fq : FlowQueue = new_queue ring_size ip token in
          KeepsRemotes-eq h (registered h f fq) h' (ground (arith, e, s))
            (registered-KeepsRemotes h f fq (unfold new_queue in refl))
    ]

pub close_queue-KeepsRemotes : (h h' : Hub) (q : ℕ) → close_queue h q ≡ some h' → KeepsRemotes h h'
unfolding close_queue
close_queue-KeepsRemotes h h' q s = elim (Option-cases (Dict.lookup q h.queues)) [
  | inl e ↦ ground (arith, e, s)
  | inr (fq, e) ↦
      let fq' : FlowQueue = record fq { closed = true } in
      KeepsRemotes-eq h (set_queue h q fq') h' (ground (arith, e, s))
        (set_queue-KeepsRemotes h q fq fq' e refl (refl, refl))
]

pub release_once-KeepsRemotes :
    (h h' : Hub) (f : HubFlow) → release_once h f ≡ some h' → KeepsRemotes h h'
unfolding release_once
release_once-KeepsRemotes h h' f s = elim (Option-cases (Dict.lookup f.flow_id h.flows)) [
  | inl e ↦ KeepsRemotes-eq h h h' (ground (arith, e, s)) (KeepsRemotes-refl h)
  | inr (cur, e) ↦ elim (Bool-cases (cur == f.queue)) [
    | inl own ↦
        close_queue-KeepsRemotes (record h { flows = Dict.erase f.flow_id h.flows }) h' f.queue
          (ground (arith, e, own, s))
    | inr stale ↦ KeepsRemotes-eq h h h' (ground (arith, e, stale, s)) (KeepsRemotes-refl h)
  ]
]

pub release-KeepsRemotes :
    (h h' : Hub) (f f' : HubFlow) → release h f ≡ some (h', f') → KeepsRemotes h h'
unfolding release
release-KeepsRemotes h h' f f' s = elim (Bool-cases f.released) [
  | inl e ↦ KeepsRemotes-eq h h h' (ground (arith, e, s)) (KeepsRemotes-refl h)
  | inr e ↦ elim (Option-cases (release_once h f)) [
    | inl n ↦ ground (arith, e, n, s)
    | inr (h1, o) ↦
        KeepsRemotes-eq h h1 h' (ground (arith, e, o, s)) (release_once-KeepsRemotes h h1 f o)
  ]
]

pub close_entries-KeepsRemotes :
    (h h' : Hub) (entries : Dict ℕ) → close_entries h entries ≡ some h' → KeepsRemotes h h'
unfolding close_entries
close_entries-KeepsRemotes h h' [] s = KeepsRemotes-eq h h h' (some_eq s) (KeepsRemotes-refl h)
close_entries-KeepsRemotes h h' ((f, q) ∷ rest) s = elim (Option-cases (close_queue h q)) [
  | inl n ↦ ground (arith, n, s)
  | inr (h1, e) ↦ KeepsRemotes-trans h h1 h' (close_queue-KeepsRemotes h h1 q e) (
      close_entries-KeepsRemotes (record h1 { flows = Dict.erase f h1.flows }) h' rest
        (ground (arith, e, s)))
]

pub pull_local_drops-KeepsRemotes :
    (h h' : Hub) (f : HubFlow) → (pull_local_drops h f).1 ≡ h' → KeepsRemotes h h'
unfolding pull_local_drops
pull_local_drops-KeepsRemotes h h' f s = elim (Option-cases (Dict.lookup f.queue h.queues)) [
  | inl e ↦ KeepsRemotes-eq h h h' (ground (arith, e, s)) (KeepsRemotes-refl h)
  | inr (fq, e) ↦
      let fq' : FlowQueue = record fq { local_drops = 0 } in
      KeepsRemotes-eq h (set_queue h f.queue fq') h' (ground (arith, e, s))
        (set_queue-KeepsRemotes h f.queue fq fq' e refl (refl, refl))
]

pub receive-KeepsRemotes :
    (h h' : Hub) (f : HubFlow) (obs : Observation)
    → receive h f ≡ some (obs, h')
    → KeepsRemotes h h'
unfolding receive
receive-KeepsRemotes h h' f obs s = elim (Option-cases (Dict.lookup f.queue h.queues)) [
  | inl e ↦ ground (arith, e, s)
  | inr (fq, e) ↦ elim (Option-cases (receive_from fq fq.buffer)) [
    | inl n ↦ ground (arith, e, n, s)
    | inr ((obs', fq'), n) ↦
        let (rest, _, same) = receive_from_lem fq fq' fq.buffer obs' n in
        KeepsRemotes-eq h (set_queue h f.queue fq') h' (ground (arith, e, n, s)) (
          set_queue-KeepsRemotes h f.queue fq fq' e (ground (arith, same))
            (ground (arith, same), ground (arith, same)))
  ]
]
