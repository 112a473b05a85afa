-- ===== src/Stream/Hub.antt =====
-- internal/stream/hub.go: the demultiplexer. The heap of flow queues is explicit, since a handle
-- (`HubFlow`) and the hub's map share a queue and `Release` compares the pointers: a queue is
-- named by a number, and `next_queue` is the next `&flowQueue{}`. A buffered channel is its
-- contents (oldest first), its capacity and whether it is closed. `none` is a Go panic: a send on
-- a closed channel, a second close, or the panic of `Register`. The read-write mutex makes each of
-- these functions one step.
pub mod Remotes
pub mod Cells
pub mod Invariant
pub mod Reach
pub mod Capture
use dropline.Prelude.{
  ℕ, suc, ◌+◌, List, [], ◌∷◌, ◌++◌, Bool, true, false, not, ◌&&◌, ◌||◌, Option, none, some, length,
  take, ltb, ◌==◌, if◌then◌else◌,
}
use dropline.Prelude.Int.{ℤ, pos, leb_ℤ, pos_part}
use dropline.Prelude.Counters.{add64}
use dropline.Prelude.Dict
use dropline.Prelude.Dict.{Dict}
use dropline.Stream.Header.{Header, Decoded, ok, err, decode_header, header_size}
use dropline.Stream.Net.{Ip, UdpAddr, to4, ip_equal}

abbrev pub default_ring_size : ℕ
default_ring_size = 4096

-- observation: the decoded header and the time at which it was read.
pub record Observation : Type 0 where
  pub h : Header
  pub arrival : ℤ

pub record FlowQueue : Type 0 where
  pub buffer : List Observation
  pub capacity : ℕ
  pub closed : Bool
  pub local_drops : ℕ
  -- `remote`, with `remoteOnce` done and `remoteCh` closed where it is there
  pub remote : Option UdpAddr
  pub expected_peer_ip : Option Ip
  pub expected_token : ℕ

pub record Hub : Type 0 where
  pub flows : Dict ℕ
  pub queues : Dict FlowQueue
  pub next_queue : ℕ

pub record HubFlow : Type 0 where
  pub flow_id : ℕ
  pub queue : ℕ
  pub released : Bool

unfoldable pub new_hub : Hub
new_hub = record { flows = []; queues = []; next_queue = 0 }

-- The queue behind a pointer of the map.
unfoldable pub flow_queue : Hub → ℕ → Option FlowQueue
flow_queue hub flow_id = elim (Dict.lookup flow_id hub.flows) [
  | none ↦ none
  | some q ↦ Dict.lookup q hub.queues
]

unfoldable pub set_queue : Hub → ℕ → FlowQueue → Hub
set_queue hub q fq = record hub { queues = Dict.insert q fq hub.queues }

unfoldable pub capture_remote : FlowQueue → UdpAddr → FlowQueue
capture_remote fq addr = record fq {
  remote = elim fq.remote [ none ↦ some addr | some a ↦ some a ];
}

-- The two gates of `Run`.
unfoldable pub ip_ok : FlowQueue → UdpAddr → Bool
ip_ok fq addr = elim fq.expected_peer_ip [ none ↦ true | some ip ↦ ip_equal addr.ip ip ]

unfoldable pub token_ok : FlowQueue → Header → Bool
token_ok fq hdr = fq.expected_token == 0 || hdr.token == fq.expected_token

-- The non-blocking send, with its default arm.
unfoldable pub offer : FlowQueue → Observation → FlowQueue
offer fq obs =
    if ltb (length fq.buffer) fq.capacity
    then record fq { buffer = fq.buffer ++ (obs ∷ []) }
    else record fq { local_drops = add64 fq.local_drops 1 }

-- What `Run` does to the queue of a registered flow.
unfoldable pub deliver : FlowQueue → Header → UdpAddr → ℤ → Option FlowQueue
deliver fq hdr addr arrival =
    if ip_ok fq addr && token_ok fq hdr
    then (if fq.closed
        then none
        else some (offer (capture_remote fq addr) (record { h = hdr; arrival = arrival })))
    else some fq

unfoldable pub deliver_to : Hub → Option ℕ → Header → UdpAddr → ℤ → Option Hub
deliver_to hub none hdr addr arrival = some hub
deliver_to hub (some q) hdr addr arrival = elim (Dict.lookup q hub.queues) [
  | none ↦ none
  | some fq ↦ elim (deliver fq hdr addr arrival) [
    | none ↦ none
    | some fq' ↦ some (set_queue hub q fq')
  ]
]

unfoldable pub dispatch_decoded : Hub → Decoded → UdpAddr → ℤ → Option Hub
dispatch_decoded hub (err e) addr arrival = some hub
dispatch_decoded hub (ok hdr) addr arrival =
    deliver_to hub (Dict.lookup hdr.flow_id hub.flows) hdr addr arrival

-- The body of `Run`'s loop for one datagram that was read.
unfoldable pub dispatch : Hub → List ℕ → UdpAddr → ℤ → Option Hub
dispatch hub packet addr arrival =
    if ltb (length packet) header_size
    then some hub
    else dispatch_decoded hub (decode_header (take header_size packet)) addr arrival

unfoldable pub canonical : Option Ip → Option Ip
canonical none = none
canonical (some ip) = elim (to4 ip) [ none ↦ some ip | some v4 ↦ some v4 ]

unfoldable pub new_queue : ℤ → Option Ip → ℕ → FlowQueue
new_queue ring_size ip token = record {
  buffer = [];
  capacity = if leb_ℤ ring_size (pos 0) then default_ring_size else pos_part ring_size;
  closed = false;
  local_drops = 0;
  remote = none;
  expected_peer_ip = canonical ip;
  expected_token = token;
}

-- `TryRegister`; a refused flow id leaves the queue that was allocated to the collector.
unfoldable pub try_register : Hub → ℕ → ℤ → Option Ip → ℕ → Hub × Option HubFlow
try_register hub flow_id ring_size ip token = elim (Dict.lookup flow_id hub.flows) [
  | some q ↦ (hub, none)
  | none ↦ (
    record {
      flows = Dict.insert flow_id hub.next_queue hub.flows;
      queues = Dict.insert hub.next_queue (new_queue ring_size ip token) hub.queues;
      next_queue = suc hub.next_queue;
    },
    some (record { flow_id = flow_id; queue = hub.next_queue; released = false }),
  )
]

-- `Register`, which panics where `TryRegister` refuses.
unfoldable pub register : Hub → ℕ → ℤ → Option Ip → ℕ → Option (Hub × HubFlow)
register hub flow_id ring_size ip token =
    let (hub', hf) = try_register hub flow_id ring_size ip token in
    elim hf [ none ↦ none | some f ↦ some (hub', f) ]

-- close(fq.ch)
unfoldable pub close_queue : Hub → ℕ → Option Hub
close_queue hub q = elim (Dict.lookup q hub.queues) [
  | none ↦ none
  | some fq ↦ if fq.closed then none else some (set_queue hub q (record fq { closed = true }))
]

-- `for id, fq := range h.flows { close(fq.ch); delete(h.flows, id) }`, over the map's entries
-- in the order of the list.
unfoldable pub close_entries : Hub → Dict ℕ → Option Hub
close_entries hub [] = some hub
close_entries hub ((flow_id, q) ∷ rest) = elim (close_queue hub q) [
  | none ↦ none
  | some hub' ↦ close_entries (record hub' { flows = Dict.erase flow_id hub'.flows }) rest
]

unfoldable pub close_all : Hub → Option Hub
close_all hub = close_entries hub hub.flows

-- The body of `release.Do`.
unfoldable pub release_once : Hub → HubFlow → Option Hub
release_once hub f = elim (Dict.lookup f.flow_id hub.flows) [
  | none ↦ some hub
  | some cur ↦
      if cur == f.queue
      then close_queue (record hub { flows = Dict.erase f.flow_id hub.flows }) f.queue
      else some hub
]

unfoldable pub release : Hub → HubFlow → Option (Hub × HubFlow)
release hub f = if f.released then some (hub, f) else elim (release_once hub f) [
  | none ↦ none
  | some hub' ↦ some (hub', record f { released = true })
]

-- `PullLocalDrops`: swap the counter with 0.
unfoldable pub pull_local_drops : Hub → HubFlow → ℕ × Hub
pull_local_drops hub f = elim (Dict.lookup f.queue hub.queues) [
  | none ↦ (0, hub)
  | some fq ↦ (fq.local_drops, set_queue hub f.queue (record fq { local_drops = 0 }))
]

-- A receive from `Observations()`: the oldest observation, also of a closed channel.
unfoldable pub receive_from : FlowQueue → List Observation → Option (Observation × FlowQueue)
receive_from fq [] = none
receive_from fq (obs ∷ rest) = some (obs, record fq { buffer = rest })

unfoldable pub receive : Hub → HubFlow → Option (Observation × Hub)
receive hub f = elim (Dict.lookup f.queue hub.queues) [
  | none ↦ none
  | some fq ↦ elim (receive_from fq fq.buffer) [
    | none ↦ none
    | some (obs, fq') ↦ some (obs, set_queue hub f.queue fq')
  ]
]

-- What `RemoteAddr` returns once it does not block.
unfoldable pub remote_addr : Hub → HubFlow → Option UdpAddr
remote_addr hub f = elim (Dict.lookup f.queue hub.queues) [ none ↦ none | some fq ↦ fq.remote ]
