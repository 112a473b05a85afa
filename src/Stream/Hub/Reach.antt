-- ===== src/Stream/Hub/Reach.antt =====
-- Runs of the hub of internal/stream/hub.go: any sequence of datagrams, registrations, releases,
-- receives and pulls of drop counters, and the shutdown.
use dropline.Prelude.{
  ℕ, List, [], ◌∷◌, Bool, true, false, ◌||◌, ◌==◌, Bool-cases, Option, none, some, take,
  if◌then◌else◌, ◌≡◌, refl, sym, ap, ◌∙◌, subst, arith, ◌⊎◌, inl, inr, Option-cases, some_eq,
}
use dropline.Prelude.Int.{ℤ}
use dropline.Prelude.Dict
use dropline.Prelude.Dict.{
  Dict, lookup, lookup-insert, lookup-erase, Unique, erase_head, lookup_head,
}
use dropline.Stream.Header.{Decoded, ok, err, decode_header}
use dropline.Stream.Net.{Ip, UdpAddr}
use dropline.Stream.Hub.{
  Observation, FlowQueue, Hub, HubFlow, new_hub, set_queue, dispatch, try_register, close_queue,
  close_entries, close_all, release, pull_local_drops, receive, receive_from,
}
use dropline.Stream.Hub.Cells.{passes, receive_from-IsSuccessor}
use dropline.Stream.Hub.Invariant.{
  Inv, new_hub-Inv, set_queue-Inv, dispatch-Inv, try_register-Inv, retire-Inv, release-Inv,
}

-- `close` before `delete` and after it leave the same hub.
closes :
    (hub : Hub) (f q : ℕ) (fq : FlowQueue) (rest : Dict ℕ) (hub1 hub' : Hub)
    → Dict.lookup q hub.queues ≡ some fq
    → fq.closed ≡ false
    → close_queue (record hub { flows = Dict.erase f hub.flows }) q ≡ some hub1
    → close_entries hub1 rest ≡ some hub'
    → close_entries hub ((f, q) ∷ rest) ≡ some hub'
closes hub f q fq rest hub1 hub' found open' done ends =
    let both : close_queue hub q ≡ some (set_queue hub q (record fq { closed = true })) =
      unfold close_queue in ground (arith, found, open') in
    let same : record (set_queue hub q (record fq { closed = true })) {
      flows = Dict.erase f hub.flows;
    }
        ≡ hub1 =
      unfold close_queue set_queue in ground (arith, found, open', done) in
    unfold close_entries in
    rw (both, close_entries) (unfold set_queue in (ap (λ h. close_entries h rest) same ∙ ends))

-- Whether some flow of a map stands on a queue.
abbrev pub points_at : ℕ → Dict ℕ → Bool
points_at q [] = false
points_at q ((f, p) ∷ m) = p == q || points_at q m

-- What a shutdown does to a queue: one that a flow stood on was open and is closed, with all else
-- that it holds, and any other is as it was.
abbrev pub IsShut : Bool → ℕ → Hub → Hub → Type 0
IsShut true q h h' =
    (fq : FlowQueue) × (Dict.lookup q h.queues ≡ some fq)
    × (fq.closed ≡ false)
    × (Dict.lookup q h'.queues ≡ some (record fq { closed = true }))
IsShut false q h h' = Dict.lookup q h'.queues ≡ Dict.lookup q h.queues

IsShut-from :
    (b : Bool) (q : ℕ) (h h1 h' : Hub)
    → Dict.lookup q h1.queues ≡ Dict.lookup q h.queues
    → IsShut b q h1 h'
    → IsShut b q h h'
IsShut-from true q h h1 h' e (fq, found, open', shut) = (fq, sym e ∙ found, open', shut)
IsShut-from false q h h1 h' e same = same ∙ e

-- No other flow stands on the queue of a flow that shares it with none.
points_at-alone :
    (f q : ℕ) (m : Dict ℕ)
    → Dict.lookup f m ≡ none
    → ((g : ℕ) → Dict.lookup g m ≡ some q → f ≡ g)
    → Unique m
    → points_at q m ≡ false
unfolding lookup
points_at-alone f q [] absent alone u = refl
points_at-alone f q ((g, p) ∷ m) absent alone u = elim (Bool-cases (p == q)) [
  | inl here ↦ absurd (ground (arith, alone g, here, absent))
  | inr there ↦
      let rest : points_at q m ≡ false =
        points_at-alone f q m (ground (arith, absent)) (λ k r. alone k (ground (arith, r, u.0)))
          u.1 in
      rw (there, rest) refl
]

closes-queues :
    (hub hub1 : Hub) (f q : ℕ) (fq : FlowQueue)
    → Dict.lookup q hub.queues ≡ some fq
    → fq.closed ≡ false
    → close_queue (record hub { flows = Dict.erase f hub.flows }) q ≡ some hub1
    → hub1.queues ≡ Dict.insert q (record fq { closed = true }) hub.queues
unfolding close_queue set_queue
closes-queues hub hub1 f q fq found open' done = ground (arith, found, open', done)

one-IsShut :
    (hub hub1 hub' : Hub) (f q k : ℕ) (fq : FlowQueue) (rest : Dict ℕ)
    → Dict.lookup q hub.queues ≡ some fq
    → fq.closed ≡ false
    → hub1.queues ≡ Dict.insert q (record fq { closed = true }) hub.queues
    → points_at q rest ≡ false
    → IsShut (points_at k rest) k hub1 hub'
    → IsShut (points_at k ((f, q) ∷ rest)) k hub hub'
one-IsShut hub hub1 hub' f q k fq rest found open' queues alone shut =
    let at : Dict.lookup k hub1.queues
        ≡ (if q == k then some (record fq { closed = true }) else Dict.lookup k hub.queues) =
      ap (Dict.lookup k) queues ∙ lookup-insert q k (record fq { closed = true }) hub.queues in
    elim (Bool-cases (q == k)) [
      | inr other ↦
          rw other (IsShut-from (points_at k rest) k hub hub1 hub' (ground (arith, at, other)) shut)
      | inl same ↦
          let none' : points_at k rest ≡ false = ground (arith, alone, same) in
          let kept : Dict.lookup k hub'.queues ≡ Dict.lookup k hub1.queues =
            subst (λ (b : Bool). IsShut b k hub1 hub') none' shut in
          rw same (fq, ground (arith, found, same), open', kept ∙ ground (arith, at, same))
    ]

-- Shutting down retires one flow after the other, and the map ends empty.
close_entries-Inv :
    (hub : Hub) (entries : Dict ℕ)
    → Inv hub
    → hub.flows ≡ entries
    → Unique entries
    → (hub' : Hub) × (close_entries hub entries ≡ some hub')
      × (hub'.flows ≡ [])
      × Inv hub'
      × ((k : ℕ) → IsShut (points_at k entries) k hub hub')
unfolding close_entries
close_entries-Inv hub [] v e u = (hub, refl, e, v, λ k. refl)
close_entries-Inv hub ((f, q) ∷ rest) v e u =
    let points : Dict.lookup f hub.flows ≡ some q =
      ap (λ m. Dict.lookup f m) e ∙ lookup_head f q rest in
    let (fq, found, open') = v.live f q points in
    let (hub1, done, flows1, v1) = retire-Inv hub f q v points in
    let left : hub1.flows ≡ rest = flows1 ∙ ap (λ m. Dict.erase f m) e ∙ erase_head f q rest u.0 in
    let (hub', ends, empty, v', shut) = close_entries-Inv hub1 rest v1 left u.1 in
    let alone =
      points_at-alone f q rest u.0
        (λ g r.
          v.distinct f g q points (ap (Dict.lookup g) e ∙ unfold lookup in ground (arith, r, u.0)))
        u.1 in
    let queues = closes-queues hub hub1 f q fq found open' done in
    (
      hub',
      closes hub f q fq rest hub1 hub' found open' done ends,
      empty,
      v',
      λ k. one-IsShut hub hub1 hub' f q k fq rest found open' queues alone (shut k),
    )

pub close_all-Inv :
    (hub : Hub)
    → Inv hub
    → (hub' : Hub) × (close_all hub ≡ some hub')
      × (hub'.flows ≡ [])
      × Inv hub'
      × ((k : ℕ) → IsShut (points_at k hub.flows) k hub hub')
unfolding close_all
close_all-Inv hub v = close_entries-Inv hub hub.flows v refl v.unique

pub pull_local_drops-Inv : (hub : Hub) (f : HubFlow) → Inv hub → Inv (pull_local_drops hub f).1
unfolding pull_local_drops
pull_local_drops-Inv hub f v = elim (Option-cases (Dict.lookup f.queue hub.queues)) [
  | inl e ↦ subst Inv (ground (arith, e)) v
  | inr (fq, e) ↦ subst Inv (ground (arith, e)) (
      set_queue-Inv hub f.queue fq (record fq { local_drops = 0 }) v e
        (record { closed = refl; room = λ r. r; ip = refl; token = refl }))
]

pub receive-Inv :
    (hub hub' : Hub) (f : HubFlow) (obs : Observation)
    → Inv hub
    → receive hub f ≡ some (obs, hub')
    → Inv hub'
unfolding receive
receive-Inv hub hub' f obs v r = elim (Option-cases (Dict.lookup f.queue hub.queues)) [
  | inl e ↦ ground (arith, e, r)
  | inr (fq, e) ↦ elim (Option-cases (receive_from fq fq.buffer)) [
    | inl n ↦ ground (arith, e, n, r)
    | inr ((obs', fq'), n) ↦
        subst Inv (ground (arith, e, n, r))
          (set_queue-Inv hub f.queue fq fq' v e (receive_from-IsSuccessor fq fq' obs' n).1)
  ]
]

-- The datagrams read so far, newest first, as they decode.
abbrev pub Traffic : Type 0
Traffic = List (Decoded × UdpAddr)

-- Some datagram of the traffic came from the address and passed the gates of the queue.
abbrev pub Authentic : Traffic → FlowQueue → UdpAddr → Type 0
Authentic [] fq a = ⊥
Authentic ((err e, addr) ∷ ds) fq a = Authentic ds fq a
Authentic ((ok hdr, addr) ∷ ds) fq a =
    ((passes fq hdr addr ≡ true) × (addr ≡ a)) ⊎ Authentic ds fq a

pub data Reach : Traffic → Hub → Type 0 where
  start : {h : Hub} → h ≡ new_hub → Reach [] h
  datagram :
      {ds : Traffic} {h h' : Hub} {d : Decoded} (packet : List ℕ) (addr : UdpAddr) (arrival : ℤ)
      → Reach ds h
      → decode_header (take 32 packet) ≡ d
      → dispatch h packet addr arrival ≡ some h'
      → Reach ((d, addr) ∷ ds) h'
  registers :
      {ds : Traffic} {h h' : Hub} (f : ℕ) (ring_size : ℤ) (ip : Option Ip) (token : ℕ)
      → Reach ds h
      → (try_register h f ring_size ip token).0 ≡ h'
      → Reach ds h'
  releases :
      {ds : Traffic} {h h' : Hub} (f f' : HubFlow)
      → Reach ds h
      → release h f ≡ some (h', f')
      → Reach ds h'
  receives :
      {ds : Traffic} {h h' : Hub} (f : HubFlow) (obs : Observation)
      → Reach ds h
      → receive h f ≡ some (obs, h')
      → Reach ds h'
  pulls :
      {ds : Traffic} {h h' : Hub} (f : HubFlow)
      → Reach ds h
      → (pull_local_drops h f).1 ≡ h'
      → Reach ds h'
  shuts : {ds : Traffic} {h h' : Hub} → Reach ds h → close_all h ≡ some h' → Reach ds h'

pub Reach-Inv : {ds : Traffic} {h : Hub} → Reach ds h → Inv h
Reach-Inv (start e) = subst Inv (sym e) new_hub-Inv
Reach-Inv (datagram {h = h} packet addr arrival r _ e) =
    let (h1, e1, v) = dispatch-Inv h packet addr arrival (Reach-Inv r) in
    subst Inv (some_eq (sym e1 ∙ e)) v
Reach-Inv (registers {h = h} f ring_size ip token r e) =
    subst Inv e (try_register-Inv h f ring_size ip token (Reach-Inv r))
Reach-Inv (releases {h = h} f f' r e) =
    let (h1, f1, e1, _, v) = release-Inv h f (Reach-Inv r) in
    subst Inv (ap (λ (p : Hub × HubFlow). p.0) (some_eq (sym e1 ∙ e))) v
Reach-Inv (receives {h = h} {h' = h'} f obs r e) = receive-Inv h h' f obs (Reach-Inv r) e
Reach-Inv (pulls {h = h} f r e) = subst Inv e (pull_local_drops-Inv h f (Reach-Inv r))
Reach-Inv (shuts {h = h} r e) =
    let (h1, e1, _, v, _) = close_all-Inv h (Reach-Inv r) in subst Inv (some_eq (sym e1 ∙ e)) v

-- After any run of the hub nothing can make it panic: the next datagram is dispatched, any handle,
-- stale ones too, can be released, and the shutdown goes through; it empties the map and closes
-- every queue that a flow stands on, which was open until then, and leaves every other as it was.
pub never_panics :
    {ds : Traffic} {h : Hub} (packet : List ℕ) (addr : UdpAddr) (arrival : ℤ) (f : HubFlow) (q : ℕ)
    → Reach ds h
    → ((h' : Hub) × (dispatch h packet addr arrival ≡ some h'))
      × ((h' : Hub) × (f' : HubFlow) × (release h f ≡ some (h', f')))
      × ((h' : Hub) × (close_all h ≡ some h')
          × (h'.flows ≡ [])
          × IsShut (points_at q h.flows) q h h')
never_panics {h = h} packet addr arrival f q r =
    let v = Reach-Inv r in
    let (h1, e1, _) = dispatch-Inv h packet addr arrival v in
    let (h2, f2, e2, _, _) = release-Inv h f v in
    let (h3, e3, empty, _, shut) = close_all-Inv h v in
    ((h1, e1), (h2, f2, e2), (h3, e3, empty, shut q))
