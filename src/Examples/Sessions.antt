-- ===== src/Examples/Sessions.antt =====
-- cmd/dropline/serve.go: an admissible Hello, its session, and a probe that joins it.
use dropline.Prelude.{
  ◌+◌, ◌*◌, ◌<◌, ◌≤◌, str_eq, [], ◌∷◌, Option, none, some, true, false, ◌≡◌, ◌↔◌, refl, arith,
  if◌then◌else◌,
}
use dropline.Prelude.Int.{ℤ, pos}
use dropline.Prelude.Dict
use dropline.Stream.Net.{Ip, to4}
use dropline.Stream.Hub.{FlowQueue, new_hub, canonical, try_register, default_ring_size}
use dropline.Stream.Hub.Invariant.{new_hub-Inv}
use dropline.Control.Messages.{Hello}
use dropline.Serve.Admission.{
  validate_hello, packet_size_bad, over_cap, mtr_interval_bad, is_hop_probe_word,
}
use dropline.Serve.Admission.Laws.{IsAdmissible, validate_hello_iff}
use dropline.Serve.Session.{
  lookup, add, Config, Server, PeerAddr, tcp, client_ipv4, Session, opened, slots, ready_for,
  session_state, publish, handle_session, open_session, close_session,
}
use dropline.Serve.Session.Laws.{open_session_gated, close-open}
use dropline.Serve.Probe.{pause}
use dropline.Serve.Probe.Laws.{paced, unpaced, waited}

abbrev pub hello : Hello
hello = record {
  type = "hello";
  version = pos 1;
  mode = "loss";
  rate_bps = pos 1000000;
  duration_ms = pos 10000;
  packet_size = pos 1200;
  flow_id = 7;
  reverse_trace = "on";
  mtr_interval_ms = pos 1000;
  reverse_stream = "auto";
  reverse_flow_id = 8;
  tcp_corroborate = "on";
  tcp_corroborate_rate_bps = pos 100000;
  token = 9;
  tcp_hop_probe = "off";
  tcp_hop_probe_port = 0;
}

abbrev cap : ℤ
cap = pos 100000000

-- The tests of `validateHello` pass.
accepted_hello : validate_hello hello cap ≡ none
unfolding validate_hello packet_size_bad over_cap mtr_interval_bad is_hop_probe_word
accepted_hello = refl

validate_hello_iff_example : (validate_hello hello cap ≡ none) ↔ IsAdmissible hello cap
validate_hello_iff_example = validate_hello_iff hello cap

abbrev config : Config
config = record {
  max_sessions = pos 4;
  max_rate = cap;
  allow_reverse_stream = true;
  reverse_capable = false;
}

abbrev idle : Server
idle = record { hub = new_hub; registry = []; sessions = 0 }

abbrev peer : PeerAddr
peer = tcp (192 ∷ 0 ∷ 2 ∷ 7 ∷ [])

abbrev address : Option Ip
address = some (192 ∷ 0 ∷ 2 ∷ 7 ∷ [])

abbrev session : Session
session = record {
  sid = "a1";
  flow = record { flow_id = 7; queue = 0; released = false };
  answer = ready_for config hello "a1" address;
}

abbrev busy : Server
busy = record {
  hub = (try_register new_hub 7 (pos default_ring_size) address 9).0;
  registry = add "a1" (session_state hello address) [];
  sessions = 1;
}

opened_session : open_session config idle hello peer (some "a1") ≡ opened session busy
unfolding open_session slots handle_session validate_hello packet_size_bad over_cap mtr_interval_bad
    is_hop_probe_word publish client_ipv4 to4 try_register new_hub Dict.lookup
opened_session = refl

open_session_gated_example :
    IsAdmissible hello cap
    × (busy.sessions ≡ idle.sessions + 1)
    × (busy.sessions ≤ slots config.max_sessions)
    × (Dict.lookup hello.flow_id idle.hub.flows ≡ none)
    × (Dict.lookup hello.flow_id busy.hub.flows ≡ some session.flow.queue)
    × ((fq : FlowQueue) × (Dict.lookup session.flow.queue busy.hub.queues ≡ some fq)
        × (fq.expected_token ≡ hello.token)
        × (fq.expected_peer_ip ≡ canonical (client_ipv4 peer)))
    × (lookup session.sid busy.registry ≡ some (session_state hello (client_ipv4 peer)))
open_session_gated_example =
    open_session_gated config idle busy hello peer (some "a1") session opened_session

close-open_example :
    (end : Server) × (close_session busy session ≡ some end)
    × (end.sessions ≡ idle.sessions)
    × (Dict.lookup 7 end.hub.flows ≡ Dict.lookup 7 idle.hub.flows)
    × (lookup "b2" end.registry
        ≡ (if str_eq session.sid "b2" then none else lookup "b2" idle.registry))
close-open_example =
    close-open config idle busy hello peer (some "a1") session 7 "b2" new_hub-Inv opened_session

-- 100 kB in the first second at 100 kbit/s: the loop sleeps.
paced_example :
    100000 * 8000000000
    < (1000000000 + waited (pause (pos 100000) 100000 (pos 1000000000)) + 10000001) * 100000
paced_example = paced 100000 100000 1000000000 (omega arith) (omega arith) (omega arith)

-- 1.2 GB in the first second at 100 kbit/s: it does not.
unpaced_example : pause (pos 100000) 1200000000 (pos 1000000000) ≡ none
unpaced_example =
    unpaced 100000 1200000000 1000000000 (omega arith) (omega arith) (omega arith) (omega arith)
