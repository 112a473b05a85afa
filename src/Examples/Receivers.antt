-- ===== src/Examples/Receivers.antt =====
-- internal/stream: a receiver of each mode that gets one datagram and counts it.
use dropline.Prelude.{◌+◌, ◌<◌, ◌^◌, [], ◌∷◌, some, ◌≡◌, refl, arith, if◌then◌else◌}
use dropline.Prelude.Int.{ℤ, pos}
use dropline.Prelude.Words.{get_be, read_be, to_i64}
use dropline.Stream.Header.{decode_header, read_fields}
use dropline.Stream.Net.{ip_equal, bytes_equal}
use dropline.Stream.Stats.{Accumulator, new_accumulator}
use dropline.Stream.Hub.{Observation, deliver, ip_ok, token_ok, offer, capture_remote, receive_from}
use dropline.Stream.Hub.Cells.{passes}
use dropline.Stream.Receiver.{ReceiverConfig, Direct, accept_packet, for_flow, push, drain, stat}
use dropline.Stream.Receiver.Account.{
  DirectRun, HubRun, IsAccounted, direct-IsAccounted, hub-IsAccounted,
}
use dropline.Examples.Numbers.{numbers}
use dropline.Examples.Hubs.{packet, first_header, address, waiting, served}

abbrev config : ReceiverConfig
config = record {
  flow_id = 7;
  token = 9;
  tick = pos 0;
  ring_size = pos 2;
  socket_buf_bytes = pos 0;
}

abbrev counter : Accumulator ℤ
counter = new_accumulator ⦃fl = numbers⦄ (pos 0)

abbrev empty : Direct ℤ
empty = record { ring = []; ring_size = 2; acc = counter }

abbrev seen : Observation
seen = record { h = first_header; arrival = pos 5 }

abbrev filled : Direct ℤ
filled = record empty { ring = seen ∷ [] }

abbrev emptied : Direct ℤ
emptied = record { ring = []; ring_size = 2; acc = stat ⦃fl = numbers⦄ counter seen }

accepted_packet : accept_packet config packet ≡ some first_header
unfolding accept_packet for_flow decode_header read_fields get_be read_be to_i64
accepted_packet = refl

drained : drain ⦃fl = numbers⦄ config empty packet (pos 5) ≡ filled
unfolding drain push accept_packet for_flow decode_header read_fields get_be read_be to_i64
drained = refl

one_datagram : DirectRun ⦃fl = numbers⦄ config 1 (0 ∷ []) emptied
one_datagram =
    DirectRun.counts filled seen []
      (DirectRun.reads empty filled packet (pos 5) first_header
        (DirectRun.begins empty (pos 0) refl refl) accepted_packet drained)
      refl

direct-IsAccounted_example : IsAccounted ⦃fl = numbers⦄ 1 (0 ∷ []) emptied.ring 0 emptied.acc
direct-IsAccounted_example = direct-IsAccounted ⦃fl = numbers⦄ one_datagram (omega arith)

delivered : deliver waiting first_header address (pos 5) ≡ some served
unfolding deliver ip_ok token_ok ip_equal bytes_equal offer capture_remote
delivered = refl

received_one : receive_from served served.buffer ≡ some (seen, record served { buffer = [] })
unfolding receive_from
received_one = refl

one_arrival :
    HubRun ⦃fl = numbers⦄
      (0 + (if passes waiting first_header address then 1 else 0))
      (0 ∷ [])
      (record served { buffer = [] })
      (stat ⦃fl = numbers⦄ counter seen)
one_arrival =
    HubRun.takes served (record served { buffer = [] }) counter seen
      (HubRun.arrives waiting served counter first_header address (pos 5)
        (HubRun.begins waiting counter (pos 0) refl refl refl) delivered)
      received_one

few : 0 + (if passes waiting first_header address then 1 else 0) < 2 ^ 63
unfolding ip_ok token_ok ip_equal bytes_equal
few = omega arith

hub-IsAccounted_example :
    IsAccounted ⦃fl = numbers⦄
      (0 + (if passes waiting first_header address then 1 else 0))
      (0 ∷ [])
      []
      0
      (stat ⦃fl = numbers⦄ counter seen)
hub-IsAccounted_example = hub-IsAccounted ⦃fl = numbers⦄ one_arrival few
