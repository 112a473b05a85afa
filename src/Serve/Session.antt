-- ===== src/Serve/Session.antt =====
-- cmd/dropline/serve.go: `newServeHandler` and the admission half of `handleSession`, up to Ready,
-- with what its deferred calls undo at the end of the session. The goroutines of a running session
-- (receiver, forwarders, probers) are not part of this module. `mintSessionID` is crypto/rand's:
-- its result is an argument. `ctx` is not modelled: a session lives until `close_session`.
pub mod Laws
use dropline.Prelude.{
  ℕ, ◌+◌, ◌-◌, String, str_eq, Bool, true, false, not, ◌&&◌, ◌||◌, Option, none, some, List, [],
  ◌∷◌, ltb, ◌==◌, if◌then◌else◌,
}
use dropline.Prelude.Int.{ℤ, pos, ltb_ℤ, pos_part}
use dropline.Stream.Net.{Ip, to4}
use dropline.Stream.Hub.{Hub, HubFlow, default_ring_size, try_register, release}
use dropline.Control.Messages.{Hello, Ready, type_ready}
use dropline.Serve.Admission.{
  Rejection, validate_hello, resolve_reverse_trace, resolve_tcp_corroborate, resolve_tcp_hop_probe,
  resolve_reverse_stream,
}

pub record SessionState : Type 0 where
  pub tcp_probe_ok : Bool
  pub client_ip : Option Ip
  pub probe_rate : ℤ

-- sessionRegistry: a map from session ids.
abbrev pub Registry : Type 0
Registry = List (String × SessionState)

unfoldable pub lookup : String → Registry → Option SessionState
lookup sid [] = none
lookup sid ((k, st) ∷ r) = if str_eq k sid then some st else lookup sid r

unfoldable pub remove : String → Registry → Registry
remove sid [] = []
remove sid ((k, st) ∷ r) = let rest = remove sid r in if str_eq k sid then rest else (k, st) ∷ rest

unfoldable pub add : String → SessionState → Registry → Registry
add sid st r = (sid, st) ∷ remove sid r

pub record Config : Type 0 where
  pub max_sessions : ℤ
  pub max_rate : ℤ
  pub allow_reverse_stream : Bool
  -- raw-ICMP capability
  pub reverse_capable : Bool

-- What the sessions share: the hub, the registry, and the slots of `sem` that are held.
pub record Server : Type 0 where
  pub hub : Hub
  pub registry : Registry
  pub sessions : ℕ

-- The peer of the control connection.
pub data PeerAddr : Type 0 where
  tcp : Ip → PeerAddr
  other : PeerAddr

unfoldable pub client_ipv4 : PeerAddr → Option Ip
client_ipv4 (tcp ip) = to4 ip
client_ipv4 other = none

pub data Refusal : Type 0 where
  busy no_session_id flow_collision : Refusal
  rejected : Rejection → Refusal

-- A session that sent its Ready.
pub record Session : Type 0 where
  pub sid : String
  pub flow : HubFlow
  pub answer : Ready

pub data Opened : Type 0 where
  refused : Refusal → Opened
  opened : Session → Server → Opened

-- `if maxSessions < 1 { maxSessions = 1 }`
unfoldable pub slots : ℤ → ℕ
slots n = if ltb_ℤ n (pos 1) then 1 else pos_part n

-- The decisions, after the client address and the operator's switch have had their say.
unfoldable pub ready_for : Config → Hello → String → Option Ip → Ready
ready_for cfg hello sid client_ip =
    let (stream, stream_flow) =
      resolve_reverse_stream hello.reverse_stream hello.reverse_flow_id hello.flow_id in
    let known : Bool = elim client_ip [ none ↦ false | some ip ↦ true ] in
    let streams = known && cfg.allow_reverse_stream in
    record {
      type = type_ready;
      session_id = sid;
      reverse_trace =
          if known then resolve_reverse_trace hello.reverse_trace cfg.reverse_capable else "off";
      reverse_stream = if streams then stream else "off";
      reverse_flow_id = if streams then stream_flow else 0;
      tcp_corroborate = resolve_tcp_corroborate hello.tcp_corroborate;
      tcp_hop_probe =
          if known then resolve_tcp_hop_probe hello.tcp_hop_probe cfg.reverse_capable else "off";
    }

unfoldable pub session_state : Hello → Option Ip → SessionState
session_state hello client_ip = record {
  tcp_probe_ok = str_eq (resolve_tcp_corroborate hello.tcp_corroborate) "on";
  client_ip = client_ip;
  probe_rate = hello.tcp_corroborate_rate_bps;
}

-- From `TryRegister` to the Ready.
unfoldable pub publish :
    Config → Server → Hello → String → Option Ip → Hub × Option HubFlow → Opened
publish cfg server hello sid client_ip (hub, none) = refused flow_collision
publish cfg server hello sid client_ip (hub, some flow) =
    opened (record { sid = sid; flow = flow; answer = ready_for cfg hello sid client_ip })
      (record {
        hub = hub;
        registry = add sid (session_state hello client_ip) server.registry;
        sessions = server.sessions + 1;
      })

unfoldable pub handle_session : Config → Server → Hello → PeerAddr → Option String → Opened
handle_session cfg server hello peer minted = elim (validate_hello hello cfg.max_rate) [
  | some r ↦ refused (rejected r)
  | none ↦ elim minted [
    | none ↦ refused no_session_id
    | some sid ↦ publish cfg server hello sid (client_ipv4 peer) (
        try_register server.hub hello.flow_id (pos default_ring_size) (client_ipv4 peer)
          hello.token)
  ]
]

-- The handler: a slot first. A refusal gives it back, and leaves the server as it was.
unfoldable pub open_session : Config → Server → Hello → PeerAddr → Option String → Opened
open_session cfg server hello peer minted =
    if ltb server.sessions (slots cfg.max_sessions)
    then handle_session cfg server hello peer minted
    else refused busy

-- The deferred calls: reg.remove, flowHandle.Release, and the slot.
unfoldable pub close_session : Server → Session → Option Server
close_session server s = elim (release server.hub s.flow) [
  | none ↦ none
  | some (hub, flow) ↦ some (record {
    hub = hub;
    registry = remove s.sid server.registry;
    sessions = server.sessions - 1;
  })
]
