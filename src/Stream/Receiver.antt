-- ===== src/Stream/Receiver.antt =====
-- internal/stream/receiver.go: what the receiver does with one datagram, one observation and one
-- tick, in both of its modes. The goroutines of a receiver take turns in any order, which is that
-- of the steps of Receiver/Account. Sockets, deadlines and the tickers are not modelled.
pub mod Account
use dropline.Prelude.{
  ℕ, ◌+◌, ◌*◌, ◌^◌, List, [], ◌∷◌, ◌++◌, Bool, true, false, not, ◌&&◌, Option, none, some, length,
  take, ltb, ◌==◌, if◌then◌else◌,
}
use dropline.Prelude.Int.{ℤ, pos, ltb_ℤ, eqb_ℤ}
use dropline.Prelude.Counters.{is_pos64}
use dropline.Prelude.Floats.{Floats}
use dropline.Stream.Header.{Header, Decoded, ok, err, decode_header, header_size}
use dropline.Stream.Stats.{Accumulator, observe, add_local_drop}
use dropline.Stream.Hub.{Observation, FlowQueue, default_ring_size}

-- DefaultTick, in nanoseconds, and DefaultSocketBuf.
abbrev pub default_tick : ℤ
default_tick = pos 1000000000

abbrev pub default_socket_buf : ℤ
default_socket_buf = pos (16 * 2 ^ 20)

-- The fields of ReceiverConfig that the steps and `applyReceiverDefaults` read.
pub record ReceiverConfig : Type 0 where
  pub flow_id : ℕ
  pub token : ℕ
  pub tick : ℤ
  pub ring_size : ℤ
  pub socket_buf_bytes : ℤ

unfoldable pub or_default : ℤ → ℤ → ℤ
or_default d n = if eqb_ℤ n (pos 0) then d else n

-- `none` is the error on a ring size below 1.
unfoldable pub apply_receiver_defaults : ReceiverConfig → Option ReceiverConfig
apply_receiver_defaults cfg =
    let ring = or_default (pos default_ring_size) cfg.ring_size in
    if ltb_ℤ ring (pos 1)
    then none
    else some (record cfg {
      ring_size = ring;
      tick = or_default default_tick cfg.tick;
      socket_buf_bytes = or_default default_socket_buf cfg.socket_buf_bytes;
    })

-- The filter of `drain`: the header of a datagram that is for this flow.
unfoldable pub for_flow : ReceiverConfig → Decoded → Option Header
for_flow cfg (err e) = none
for_flow cfg (ok h) =
    if not (cfg.flow_id == 0) && not (h.flow_id == cfg.flow_id)
    then none
    else if not (cfg.token == 0) && not (h.token == cfg.token)
    then none
    else some h

unfoldable pub accept_packet : ReceiverConfig → List ℕ → Option Header
accept_packet cfg packet =
    if ltb (length packet) header_size
    then none
    else for_flow cfg (decode_header (take header_size packet))

-- The channel between `drain` and `stat`, with the accumulator.
pub record Direct (F : Type 0) : Type 0 where
  pub ring : List Observation
  pub ring_size : ℕ
  pub acc : Accumulator F

module _ {F : Type 0} ⦃fl : Floats F⦄ where
  -- The send of `drain`, with its default arm.
  unfoldable pub push : Direct F → Observation → Direct F
  push d obs =
      if ltb (length d.ring) d.ring_size
      then record d { ring = d.ring ++ (obs ∷ []) }
      else record d { acc = add_local_drop d.acc 1 }

  -- The body of `drain`'s loop for one datagram that was read.
  unfoldable pub drain : ReceiverConfig → Direct F → List ℕ → ℤ → Direct F
  drain cfg d packet arrival = elim (accept_packet cfg packet) [
    | none ↦ d
    | some h ↦ push d (record { h = h; arrival = arrival })
  ]

  -- The body of `stat`'s loop.
  unfoldable pub stat : Accumulator F → Observation → Accumulator F
  stat a obs = observe a obs.h obs.arrival

  -- `applyHubLocalDrops`, on the queue behind the handle.
  unfoldable pub apply_hub_local_drops : FlowQueue → Accumulator F → FlowQueue × Accumulator F
  apply_hub_local_drops fq a = (
    record fq { local_drops = 0 },
    if is_pos64 fq.local_drops then add_local_drop a fq.local_drops else a,
  )
