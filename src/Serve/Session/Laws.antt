-- ===== src/Serve/Session/Laws.antt =====
-- What an admitted session of cmd/dropline/serve.go rests on, and that its end undoes it.
use dropline.Prelude.{
  ℕ, ◌+◌, ◌-◌, ◌<◌, ◌≤◌, String, str_eq, eq_iff, false, Option, none, some, [], ◌∷◌, ltb, ltb→lt,
  if◌then◌else◌, ◌≡◌, inl, inr, refl, sym, ap, ◌∙◌, subst, arith, Bool-cases, Option-cases,
}
use dropline.Prelude.Int.{pos}
use dropline.Prelude.Dict
use dropline.Prelude.Dict.{lookup-insert, lookup-erase}
use dropline.Stream.Net.{Ip}
use dropline.Stream.Hub.{
  Hub, HubFlow, FlowQueue, default_ring_size, try_register, new_queue, canonical,
}
use dropline.Stream.Hub.Invariant.{Inv, registered, registered-Inv, release_own}
use dropline.Control.Messages.{Hello}
use dropline.Serve.Admission.{validate_hello}
use dropline.Serve.Admission.Laws.{IsAdmissible, validate_hello_iff}
use dropline.Serve.Session.{
  SessionState, Registry, lookup, remove, add, Config, Server, PeerAddr, client_ipv4, Session,
  opened, slots, ready_for, session_state, publish, handle_session, open_session, close_session,
}

pub lookup-remove :
    (k j : String) (r : Registry)
    → lookup j (remove k r) ≡ (if str_eq k j then none else lookup j r)
unfolding lookup remove
lookup-remove k j [] = ground arith
lookup-remove k j ((i, st) ∷ r) =
    ground (arith, lookup-remove k j r, eq_iff i k, eq_iff i j, eq_iff k j)

pub lookup-add :
    (k j : String) (st : SessionState) (r : Registry)
    → lookup j (add k st r) ≡ (if str_eq k j then some st else lookup j r)
unfolding lookup add
lookup-add k j st r = ground (arith, lookup-remove k j r)

-- A registration that succeeds, taken apart.
record Registers (hub : Hub) (f : ℕ) (ip : Option Ip) (token : ℕ) (hub' : Hub) (flow : HubFlow)
    : Type 0 where
  free : Dict.lookup f hub.flows ≡ none
  flow_is : flow ≡ record { flow_id = f; queue = hub.next_queue; released = false }
  hub_is : hub' ≡ registered hub f (new_queue (pos default_ring_size) ip token)

try_register-some :
    (hub hub' : Hub) (f : ℕ) (ip : Option Ip) (token : ℕ) (flow : HubFlow)
    → try_register hub f (pos default_ring_size) ip token ≡ (hub', some flow)
    → Registers hub f ip token hub' flow
unfolding try_register
try_register-some hub hub' f ip token flow e = elim (Option-cases (Dict.lookup f hub.flows)) [
  | inr (q, taken) ↦ ground (arith, taken, e)
  | inl free ↦ record {
    free = free;
    flow_is = ground (arith, free, e);
    hub_is = ground (arith, free, e);
  }
]

-- A session that was opened, taken apart.
record Opens (cfg : Config) (server : Server) (hello : Hello) (peer : PeerAddr) (s : Session)
    (server' : Server) : Type 0 where
  slot : server.sessions < slots cfg.max_sessions
  valid : validate_hello hello cfg.max_rate ≡ none
  registers : Registers server.hub hello.flow_id (client_ipv4 peer) hello.token server'.hub s.flow
  answer : s.answer ≡ ready_for cfg hello s.sid (client_ipv4 peer)
  registry : server'.registry ≡ add s.sid (session_state hello (client_ipv4 peer)) server.registry
  sessions : server'.sessions ≡ server.sessions + 1

publish_opened :
    (cfg : Config) (server server' : Server) (hello : Hello) (sid : String) (ip : Option Ip)
    (r : Hub × Option HubFlow) (s : Session)
    → publish cfg server hello sid ip r ≡ opened s server'
    → (r ≡ (server'.hub, some s.flow))
      × (s.answer ≡ ready_for cfg hello s.sid ip)
      × (server'.registry ≡ add s.sid (session_state hello ip) server.registry)
      × (server'.sessions ≡ server.sessions + 1)
unfolding publish
publish_opened cfg server server' hello sid ip (hub, none) s e = ground arith
publish_opened cfg server server' hello sid ip (hub, some flow) s e = ground arith

open_session_opened :
    (cfg : Config) (server server' : Server) (hello : Hello) (peer : PeerAddr)
    (minted : Option String) (s : Session)
    → open_session cfg server hello peer minted ≡ opened s server'
    → Opens cfg server hello peer s server'
unfolding open_session handle_session
open_session_opened cfg server server' hello peer minted s e =
    elim (Bool-cases (ltb server.sessions (slots cfg.max_sessions))) [
      | inr full ↦ ground (arith, full, e)
      | inl room ↦ elim (Option-cases (validate_hello hello cfg.max_rate)) [
        | inr (r, bad) ↦ ground (arith, room, bad, e)
        | inl valid ↦ elim (Option-cases minted) [
          | inl lacking ↦ ground (arith, room, valid, lacking, e)
          | inr (sid, has) ↦
              let r =
                try_register server.hub hello.flow_id (pos default_ring_size) (client_ipv4 peer)
                  hello.token in
              let (regs, answer, registry, sessions) =
                publish_opened cfg server server' hello sid (client_ipv4 peer) r s
                  (ground (arith, room, valid, has, e)) in
              record {
                slot = ltb→lt _ _ room;
                valid = valid;
                registers =
                    try_register-some server.hub server'.hub hello.flow_id (client_ipv4 peer)
                      hello.token s.flow regs;
                answer = answer;
                registry = registry;
                sessions = sessions;
              }
        ]
      ]
    ]

-- A session that gets its Ready: the server had a slot left and has taken it; the Hello is
-- admissible, so its token is not 0; the hub has the client's flow under a queue that accepts only
-- that token, and only the client's address if it is IPv4; the registry has the session under its
-- id.
pub open_session_gated :
    (cfg : Config) (server server' : Server) (hello : Hello) (peer : PeerAddr)
    (minted : Option String) (s : Session)
    → open_session cfg server hello peer minted ≡ opened s server'
    → IsAdmissible hello cfg.max_rate
      × (server'.sessions ≡ server.sessions + 1)
      × (server'.sessions ≤ slots cfg.max_sessions)
      × (Dict.lookup hello.flow_id server.hub.flows ≡ none)
      × (Dict.lookup hello.flow_id server'.hub.flows ≡ some s.flow.queue)
      × ((fq : FlowQueue) × (Dict.lookup s.flow.queue server'.hub.queues ≡ some fq)
          × (fq.expected_token ≡ hello.token)
          × (fq.expected_peer_ip ≡ canonical (client_ipv4 peer)))
      × (lookup s.sid server'.registry ≡ some (session_state hello (client_ipv4 peer)))
open_session_gated cfg server server' hello peer minted s e =
    let o = open_session_opened cfg server server' hello peer minted s e in
    let r = o.registers in
    let fq : FlowQueue = new_queue (pos default_ring_size) (client_ipv4 peer) hello.token in
    let q = server.hub.next_queue in
    (
      (validate_hello_iff hello cfg.max_rate).0 o.valid,
      o.sessions,
      omega (arith, o.sessions, o.slot),
      r.free,
      ground (
        arith,
        r.flow_is,
        r.hub_is,
        lookup-insert hello.flow_id hello.flow_id q server.hub.flows,
      ),
      (
        fq,
        ground (arith, r.flow_is, r.hub_is, lookup-insert q q fq server.hub.queues),
        unfold new_queue in refl,
        unfold new_queue in refl,
      ),
      ap (λ m. lookup s.sid m) o.registry
          ∙ ground (
            arith,
            eq_iff s.sid s.sid,
            lookup-add s.sid s.sid (session_state hello (client_ipv4 peer)) server.registry,
          ),
    )

Registers-Inv :
    (hub : Hub) (hello : Hello) (peer : PeerAddr) (hub' : Hub) (flow : HubFlow)
    → Inv hub
    → Registers hub hello.flow_id (client_ipv4 peer) hello.token hub' flow
    → Inv hub'
Registers-Inv hub hello peer hub' flow v r =
    let fq : FlowQueue = new_queue (pos default_ring_size) (client_ipv4 peer) hello.token in
    subst Inv (sym r.hub_is) (
      registered-Inv hub hello.flow_id fq v (unfold new_queue in refl)
        (unfold new_queue in omega arith))

-- The end of a session undoes its beginning, in a hub that satisfies its invariant: closing what `open_session` returned does not panic,
-- gives the slot back, takes the flow out of the hub and the session out of the registry, and
-- leaves every other flow id as it was before the session; so every other session id.
pub close-open :
    (cfg : Config) (server server' : Server) (hello : Hello) (peer : PeerAddr)
    (minted : Option String) (s : Session) (f : ℕ) (sid : String)
    → Inv server.hub
    → open_session cfg server hello peer minted ≡ opened s server'
    → (end : Server) × (close_session server' s ≡ some end)
      × (end.sessions ≡ server.sessions)
      × (Dict.lookup f end.hub.flows ≡ Dict.lookup f server.hub.flows)
      × (lookup sid end.registry ≡ (if str_eq s.sid sid then none else lookup sid server.registry))
close-open cfg server server' hello peer minted s f sid v e =
    let o = open_session_opened cfg server server' hello peer minted s e in
    let r = o.registers in
    let q = server.hub.next_queue in
    let at_flow = λ (g : ℕ). lookup-insert hello.flow_id g q server.hub.flows in
    let own : Dict.lookup s.flow.flow_id server'.hub.flows ≡ some s.flow.queue =
      ground (arith, r.flow_is, r.hub_is, at_flow hello.flow_id) in
    let (hub', done, flows) =
      release_own server'.hub s.flow (Registers-Inv server.hub hello peer server'.hub s.flow v r)
        (ground (arith, r.flow_is)) own in
    (
      record {
        hub = hub';
        registry = remove s.sid server'.registry;
        sessions = server'.sessions - 1;
      },
      unfold close_session in rw (done, close_session),
      omega (arith, o.sessions),
      ap (λ m. Dict.lookup f m) flows
          ∙ lookup-erase s.flow.flow_id f server'.hub.flows
          ∙ ground (arith, r.flow_is, r.hub_is, at_flow f, r.free),
      ap (λ m. lookup sid (remove s.sid m)) o.registry
          ∙ ground (
            arith,
            lookup-add s.sid sid (session_state hello (client_ipv4 peer)) server.registry,
            lookup-remove s.sid sid
                (add s.sid (session_state hello (client_ipv4 peer)) server.registry),
          ),
    )
