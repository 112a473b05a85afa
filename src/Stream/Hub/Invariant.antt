-- ===== src/Stream/Hub/Invariant.antt =====
-- The registry of internal/stream/hub.go: every operation keeps its invariant, and none panics.
use dropline.Prelude.{
  ℕ, suc, ◌<◌, ◌≤◌, List, true, false, Option, none, some, length, take, ltb, ◌==◌, ◌≡◌, ◌≢◌, refl,
  subst, arith, ◌⊎◌, inl, inr, Bool-cases, Option-cases,
}
use dropline.Prelude.Int.{ℤ}
use dropline.Prelude.Dict
use dropline.Prelude.Dict.{
  Dict, lookup-insert, lookup-erase, Unique, insert-Unique, erase-Unique, erase_head, lookup_head,
}
use dropline.Stream.Header.{Header, Decoded, ok, err, decode_header}
use dropline.Stream.Net.{Ip, UdpAddr}
use dropline.Stream.Hub.{
  FlowQueue, Hub, HubFlow, new_hub, set_queue, deliver_to, dispatch_decoded, dispatch, new_queue,
  try_register, close_queue, release_once, release,
}
use dropline.Stream.Hub.Cells.{HasRoom, IsSuccessor, deliver_open, deliver-IsSuccessor}

pub record Inv (hub : Hub) : Type 0 where
  -- what the map points to is there, and open
  pub live :
      (f q : ℕ)
      → Dict.lookup f hub.flows ≡ some q
      → (fq : FlowQueue) × (Dict.lookup q hub.queues ≡ some fq) × (fq.closed ≡ false)
  -- two flow ids do not share a queue
  pub distinct :
      (f g q : ℕ) → Dict.lookup f hub.flows ≡ some q → Dict.lookup g hub.flows ≡ some q → f ≡ g
  pub fresh : (q : ℕ) → hub.next_queue ≤ q → Dict.lookup q hub.queues ≡ none
  pub rooms : (q : ℕ) (fq : FlowQueue) → Dict.lookup q hub.queues ≡ some fq → HasRoom fq
  pub unique : Unique hub.flows

pub new_hub-Inv : Inv new_hub
unfolding new_hub Dict.lookup
new_hub-Inv = record {
  live = λ f q e. cc;
  distinct = λ f g q e. cc;
  fresh = λ q h. refl;
  rooms = λ q fq e. cc;
  unique = tt;
}

-- A queue that is there lies below the next one.
pub lookup-lt :
    (hub : Hub) (q : ℕ) (fq : FlowQueue)
    → Inv hub
    → Dict.lookup q hub.queues ≡ some fq
    → q < hub.next_queue
lookup-lt hub q fq v e = elim (Bool-cases (ltb q hub.next_queue)) [
  | inl p ↦ ground arith
  | inr p ↦ ground (arith, v.fresh q)
]

-- Changing one queue, with what `IsSuccessor` keeps.
pub set_queue-Inv :
    (hub : Hub) (q : ℕ) (fq fq' : FlowQueue)
    → Inv hub
    → Dict.lookup q hub.queues ≡ some fq
    → IsSuccessor fq fq'
    → Inv (set_queue hub q fq')
unfolding set_queue
set_queue-Inv hub q fq fq' v e s = record {
  live = λ f p r. elim (Bool-cases (q == p)) [
    | inl same ↦
        let (fq0, found, open') = v.live f p r in
        (fq', ground (arith, lookup-insert q p fq' hub.queues), ground (arith, s.closed))
    | inr other ↦
        let (fq0, found, open') = v.live f p r in
        (fq0, ground (arith, lookup-insert q p fq' hub.queues), open')
  ];
  distinct = v.distinct;
  fresh =
      λ p h. ground (arith, lookup-insert q p fq' hub.queues, v.fresh p, lookup-lt hub q fq v e);
  rooms = λ p gq r. elim (Bool-cases (q == p)) [
    | inl same ↦ ground (arith, lookup-insert q p fq' hub.queues, s.room (v.rooms q fq e))
    | inr other ↦ ground (arith, lookup-insert q p fq' hub.queues, v.rooms p gq)
  ];
  unique = v.unique;
}

-- Delivery to what the map answers does not panic.
pub deliver_to-Inv :
    (hub : Hub) (f : ℕ) (hdr : Header) (addr : UdpAddr) (arrival : ℤ)
    → Inv hub
    → (hub' : Hub) × (deliver_to hub (Dict.lookup f hub.flows) hdr addr arrival ≡ some hub')
      × Inv hub'
deliver_to-Inv hub f hdr addr arrival v = elim (Option-cases (Dict.lookup f hub.flows)) [
  | inl e ↦ (hub, unfold deliver_to in rw e, v)
  | inr (q, e) ↦
      let (fq, found, open') = v.live f q e in
      let (fq', done) = deliver_open fq hdr addr arrival open' in
      (
        set_queue hub q fq',
        unfold deliver_to in ground (arith, e, found, done),
        set_queue-Inv hub q fq fq' v found (deliver-IsSuccessor fq fq' hdr addr arrival done),
      )
]

dispatch_decoded-Inv :
    (hub : Hub) (d : Decoded) (addr : UdpAddr) (arrival : ℤ)
    → Inv hub
    → (hub' : Hub) × (dispatch_decoded hub d addr arrival ≡ some hub') × Inv hub'
unfolding dispatch_decoded
dispatch_decoded-Inv hub (err e) addr arrival v = (hub, refl, v)
dispatch_decoded-Inv hub (ok hdr) addr arrival v = deliver_to-Inv hub hdr.flow_id hdr addr arrival v

-- Any datagram is dealt with, without panic, and the invariant stands.
pub dispatch-Inv :
    (hub : Hub) (packet : List ℕ) (addr : UdpAddr) (arrival : ℤ)
    → Inv hub
    → (hub' : Hub) × (dispatch hub packet addr arrival ≡ some hub') × Inv hub'
unfolding dispatch
dispatch-Inv hub packet addr arrival v = elim (Bool-cases (ltb (length packet) 32)) [
  | inl short ↦ (hub, rw short, v)
  | inr long ↦
      let (hub', e, v') =
        dispatch_decoded-Inv hub (decode_header (take 32 packet)) addr arrival v in
      (hub', rw long e, v')
]

-- A fresh registration.
abbrev pub registered : Hub → ℕ → FlowQueue → Hub
registered hub f fq = record {
  flows = Dict.insert f hub.next_queue hub.flows;
  queues = Dict.insert hub.next_queue fq hub.queues;
  next_queue = suc hub.next_queue;
}

unused : (hub : Hub) (g : ℕ) → Inv hub → Dict.lookup g hub.flows ≢ some hub.next_queue
unused hub g v e =
    let (gq, found, _) = v.live g hub.next_queue e in
    absurd (omega (arith, lookup-lt hub hub.next_queue gq v found))

pub registered-Inv :
    (hub : Hub) (f : ℕ) (fq : FlowQueue)
    → Inv hub
    → fq.closed ≡ false
    → HasRoom fq
    → Inv (registered hub f fq)
registered-Inv hub f fq v open' room =
    let at_flow = λ (g : ℕ). lookup-insert f g hub.next_queue hub.flows in
    let at_queue = λ (p : ℕ). lookup-insert hub.next_queue p fq hub.queues in
    record {
      live = λ g p r. elim (Bool-cases (f == g)) [
        | inl same ↦ (fq, ground (arith, at_flow g, at_queue p), open')
        | inr other ↦
            let (gq, found, gopen) = v.live g p (ground (arith, at_flow g)) in
            (gq, ground (arith, at_queue p, lookup-lt hub p gq v found), gopen)
      ];
      distinct = λ g h p r s.
          ground (arith, at_flow g, at_flow h, v.distinct g h p, unused hub g v, unused hub h v);
      fresh = λ p h. ground (arith, at_queue p, v.fresh p);
      rooms = λ p gq r. ground (arith, at_queue p, v.rooms p gq);
      unique = insert-Unique f hub.next_queue hub.flows v.unique;
    }

pub try_register-Inv :
    (hub : Hub) (f : ℕ) (ring_size : ℤ) (ip : Option Ip) (token : ℕ)
    → Inv hub
    → Inv (try_register hub f ring_size ip token).0
unfolding try_register
try_register-Inv hub f ring_size ip token v = elim (Option-cases (Dict.lookup f hub.flows)) [
  | inr (q, e) ↦ subst Inv (ground (arith, e)) v
  | inl e ↦ subst Inv (ground (arith, e)) (
      registered-Inv hub f (new_queue ring_size ip token) v (unfold new_queue in refl)
        (unfold new_queue in omega arith))
]

-- Closing a queue that no flow points to, as `Release` and `closeAll` leave it.
close_queue-Inv :
    (hub : Hub) (q : ℕ) (fq : FlowQueue)
    → Inv hub
    → ((f : ℕ) → Dict.lookup f hub.flows ≢ some q)
    → Dict.lookup q hub.queues ≡ some fq
    → fq.closed ≡ false
    → (hub' : Hub) × (close_queue hub q ≡ some hub') × (hub'.flows ≡ hub.flows) × Inv hub'
close_queue-Inv hub q fq v gone found open' =
    let fq' : FlowQueue = record fq { closed = true } in
    let at_queue = λ (p : ℕ). lookup-insert q p fq' hub.queues in
    (
      set_queue hub q fq',
      unfold close_queue in ground (arith, found),
      unfold set_queue in refl,
      unfold set_queue in
          record {
            live = λ g p r.
                let (gq, there, gopen) = v.live g p r in
                (gq, ground (arith, at_queue p, gone g), gopen);
            distinct = v.distinct;
            fresh = λ p h. ground (arith, at_queue p, v.fresh p, lookup-lt hub q fq v found);
            rooms = λ p gq r. ground (arith, at_queue p, v.rooms p gq, v.rooms q fq found);
            unique = v.unique;
          },
    )

erase_flow-Inv : (hub : Hub) (f : ℕ) → Inv hub → Inv (record hub { flows = Dict.erase f hub.flows })
erase_flow-Inv hub f v =
    let at_flow = λ (g : ℕ). lookup-erase f g hub.flows in
    record {
      live = λ g p r. v.live g p (ground (arith, at_flow g));
      distinct =
          λ g h p r s. v.distinct g h p (ground (arith, at_flow g)) (ground (arith, at_flow h));
      fresh = v.fresh;
      rooms = v.rooms;
      unique = erase-Unique f hub.flows v.unique;
    }

-- Taking a flow out of the map and closing its queue.
pub retire-Inv :
    (hub : Hub) (f q : ℕ)
    → Inv hub
    → Dict.lookup f hub.flows ≡ some q
    → (hub' : Hub) × (close_queue (record hub { flows = Dict.erase f hub.flows }) q ≡ some hub')
      × (hub'.flows ≡ Dict.erase f hub.flows)
      × Inv hub'
retire-Inv hub f q v e =
    let (fq, found, open') = v.live f q e in
    close_queue-Inv (record hub { flows = Dict.erase f hub.flows }) q fq (erase_flow-Inv hub f v)
      (λ g r. ground (arith, lookup-erase f g hub.flows, v.distinct f g q)) found open'

-- `Release` never panics, also on a handle that outlived its registration.
pub release-Inv :
    (hub : Hub) (f : HubFlow)
    → Inv hub
    → (hub' : Hub) × (f' : HubFlow) × (release hub f ≡ some (hub', f'))
      × (f'.released ≡ true)
      × Inv hub'
release-Inv hub f v = elim (Bool-cases f.released) [
  | inl e ↦ (hub, f, unfold release in rw e, e, v)
  | inr e ↦ elim (Option-cases (Dict.lookup f.flow_id hub.flows)) [
    | inl r ↦ (
      hub,
      record f { released = true },
      unfold release release_once in ground (arith, e, r),
      refl,
      v,
    )
    | inr (cur, r) ↦ elim (Bool-cases (cur == f.queue)) [
      | inr stale ↦ (
        hub,
        record f { released = true },
        unfold release release_once in ground (arith, e, r, stale),
        refl,
        v,
      )
      | inl own ↦
          let (hub', done, _, v') = retire-Inv hub f.flow_id f.queue v (ground (arith, r, own)) in
          (
            hub',
            record f { released = true },
            unfold release release_once in ground (arith, e, r, own, done),
            refl,
            v',
          )
    ]
  ]
]

-- Releasing a handle whose registration stands, in a hub that satisfies its invariant, takes its
-- flow id out of the map, and nothing else.
pub release_own :
    (hub : Hub) (f : HubFlow)
    → Inv hub
    → f.released ≡ false
    → Dict.lookup f.flow_id hub.flows ≡ some f.queue
    → (hub' : Hub) × (release hub f ≡ some (hub', record f { released = true }))
      × (hub'.flows ≡ Dict.erase f.flow_id hub.flows)
release_own hub f v fresh e =
    let (hub', done, flows, _) = retire-Inv hub f.flow_id f.queue v e in
    (hub', unfold release release_once in ground (arith, fresh, e, done), flows)

-- Releasing again does nothing, and a handle that another registration of its flow id has
-- outlived leaves that one alone.
release_stale :
    (hub : Hub) (f : HubFlow) (q : ℕ)
    → Dict.lookup f.flow_id hub.flows ≡ some q
    → (f.released ≡ true) ⊎ (q ≢ f.queue)
    → (f' : HubFlow) × (release hub f ≡ some (hub, f')) × (f'.released ≡ true)
release_stale hub f q e (inl done) = (f, unfold release in rw done, done)
release_stale hub f q e (inr other) = elim (Bool-cases f.released) [
  | inl done ↦ (f, unfold release in rw done, done)
  | inr more ↦ (
    record f { released = true },
    unfold release release_once in ground (arith, more, e, other),
    refl,
  )
]
