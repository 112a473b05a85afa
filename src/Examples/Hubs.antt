-- ===== src/Examples/Hubs.antt =====
-- internal/stream: a hub with one flow, a datagram for it, and what becomes of both.
use dropline.Prelude.{ℕ, List, [], ◌∷◌, none, some, true, false, take, ◌≡◌, refl}
use dropline.Prelude.Int.{pos}
use dropline.Prelude.Words.{get_be, to_i64, read_be}
use dropline.Prelude.Dict
use dropline.Prelude.Dict.{lookup, insert, erase}
use dropline.Stream.Header.{Header, ok, decode_header, read_fields}
use dropline.Stream.Net.{Ip, UdpAddr, to4, ip_equal, bytes_equal}
use dropline.Stream.Hub.{
  FlowQueue, Hub, HubFlow, new_hub, set_queue, capture_remote, ip_ok, token_ok, offer, deliver,
  deliver_to, dispatch_decoded, dispatch, canonical, new_queue, try_register, release, close_all,
  remote_addr,
}
use dropline.Stream.Hub.Reach.{
  Reach, start, datagram, registers, Traffic, Authentic, IsShut, never_panics,
}
use dropline.Stream.Hub.Capture.{remote-Authentic}

abbrev client : Ip
client = 192 ∷ 0 ∷ 2 ∷ 7 ∷ []

abbrev pub address : UdpAddr
address = record { ip = client; port = 4000 }

-- Flow 7, packet 0, sent at 1, with the token 9.
abbrev pub packet : List ℕ
packet =
    0x44 ∷ 0x52 ∷ 0x50 ∷ 0x4C ∷ 0 ∷ 0 ∷ 0 ∷ 7 ∷ 0 ∷ 0 ∷ 0 ∷ 0 ∷ 0 ∷ 0 ∷ 0 ∷ 0 ∷ 0 ∷ 0 ∷ 0 ∷ 0 ∷ 0
    ∷ 0 ∷ 0 ∷ 1 ∷ 0 ∷ 0 ∷ 0 ∷ 0 ∷ 0 ∷ 0 ∷ 0 ∷ 9 ∷ []

abbrev pub first_header : Header
first_header = record { magic = 0x4452504C; flow_id = 7; seq = 0; tx_unix_ns = pos 1; token = 9 }

abbrev flow : HubFlow
flow = record { flow_id = 7; queue = 0; released = false }

abbrev pub waiting : FlowQueue
waiting = record {
  buffer = [];
  capacity = 2;
  closed = false;
  local_drops = 0;
  remote = none;
  expected_peer_ip = some client;
  expected_token = 9;
}

abbrev pub served : FlowQueue
served = record waiting {
  buffer = record { h = first_header; arrival = pos 5 } ∷ [];
  remote = some address;
}

abbrev opened_hub : Hub
opened_hub = record { flows = (7, 0) ∷ []; queues = (0, waiting) ∷ []; next_queue = 1 }

abbrev served_hub : Hub
served_hub = record { flows = (7, 0) ∷ []; queues = (0, served) ∷ []; next_queue = 1 }

registered_hub : (try_register new_hub 7 (pos 2) (some client) 9).0 ≡ opened_hub
unfolding try_register new_hub lookup insert erase new_queue canonical to4
registered_hub = refl

decoded_packet : decode_header (take 32 packet) ≡ ok first_header
unfolding decode_header read_fields get_be read_be to_i64
decoded_packet = refl

dispatched_packet : dispatch opened_hub packet address (pos 5) ≡ some served_hub
unfolding dispatch dispatch_decoded deliver_to deliver ip_ok token_ok ip_equal bytes_equal offer
    capture_remote set_queue lookup insert erase decode_header read_fields get_be read_be to_i64
dispatched_packet = refl

abbrev traffic : Traffic
traffic = (ok first_header, address) ∷ []

served_hub-Reach : Reach traffic served_hub
served_hub-Reach =
    datagram packet address (pos 5)
      (registers 7 (pos 2) (some client) 9 (start refl) registered_hub) decoded_packet
      dispatched_packet

never_panics_example :
    ((h' : Hub) × (dispatch served_hub packet address (pos 6) ≡ some h'))
    × ((h' : Hub) × (f' : HubFlow) × (release served_hub flow ≡ some (h', f')))
    × ((h' : Hub) × (close_all served_hub ≡ some h')
        × (h'.flows ≡ [])
        × IsShut true 0 served_hub h')
never_panics_example = never_panics packet address (pos 6) flow 0 served_hub-Reach

found_queue : Dict.lookup 0 served_hub.queues ≡ some served
unfolding lookup
found_queue = refl

captured : remote_addr served_hub flow ≡ some address
unfolding remote_addr lookup
captured = refl

remote-Authentic_example : Authentic traffic served address
remote-Authentic_example =
    remote-Authentic flow served address served_hub-Reach found_queue captured
