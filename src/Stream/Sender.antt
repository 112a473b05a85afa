-- ===== src/Stream/Sender.antt =====
-- internal/stream/sender.go: the sender of the loss test. The clock, the context and the socket come
-- in as values, one record for each turn of the loop of `Run`; a time is in nanoseconds. Of a packet
-- the header is kept; behind it stands the same random body every time.
pub mod Timing
pub mod Pacing
use dropline.Prelude.{
  ℕ, suc, ◌*◌, ◌/◌, List, [], ◌∷◌, Bool, true, false, not, ◌&&◌, Option, none, some, ltb, ◌==◌,
  if◌then◌else◌,
}
use dropline.Prelude.Int.{ℤ, pos, pos_part, ltb_ℤ, leb_ℤ, ◌+ℤ◌, ◌-ℤ◌}
use dropline.Prelude.Words.{wrap_i64}
use dropline.Stream.Header.{Header, header_size, max_packet_size, magic_const}

pub record SenderConfig : Type 0 where
  pub rate_bps : ℤ
  pub packet_size : ℤ
  pub duration : ℤ
  pub flow_id : ℕ
  pub token : ℕ

pub data SenderError : Type 0 where
  nil_conn : SenderError
  packet_too_small : SenderError
  packet_too_large : SenderError
  rate_not_positive : SenderError

-- What `Run` reads of a Sender; the checks have made its rate and its packet size natural.
pub record Sender : Type 0 where
  pub rate_bps : ℕ
  pub packet_size : ℕ
  pub duration : ℤ
  pub flow_id : ℕ
  pub token : ℕ

pub data NewSender : Type 0 where
  sender : Sender → NewSender
  refused : SenderError → NewSender

-- `NewSender` with a connection or nil, and the flow id that it would draw.
unfoldable pub new_sender : Bool → SenderConfig → ℕ → NewSender
new_sender has_conn cfg drawn =
    if not has_conn
    then refused nil_conn
    else if ltb_ℤ cfg.packet_size (pos header_size)
    then refused packet_too_small
    else if ltb_ℤ (pos max_packet_size) cfg.packet_size
    then refused packet_too_large
    else if leb_ℤ cfg.rate_bps (pos 0)
    then refused rate_not_positive
    else sender (record {
      rate_bps = pos_part cfg.rate_bps;
      packet_size = pos_part cfg.packet_size;
      duration = cfg.duration;
      flow_id = if cfg.flow_id == 0 then drawn else cfg.flow_id;
      token = cfg.token;
    })

-- The nanoseconds from one packet to the next.
unfoldable pub interval : Sender → ℕ
interval s = let ns = s.packet_size * 8 * 1000000000 / s.rate_bps in if ltb ns 1 then 1 else ns

-- interval < time.Millisecond
unfoldable pub busy_wait : Sender → Bool
busy_wait s = ltb (interval s) 1000000

-- The answer of the select over the context and a timer: the timer, and when it fired, or `Done`.
pub data Select : Type 0 where
  fired_at : ℤ → Select
  done : Select

-- A turn of the busy loop: whether the context is done, and else what the clock says.
pub record Spin : Type 0 where
  pub canceled : Bool
  pub now : ℤ

-- What a turn of the loop of `Run` meets, in its order: the context, the clock, the busy loop or the
-- clock and what the select answers for a timer of a given duration, the clock, and the write.
pub record Turn : Type 0 where
  pub canceled : Bool
  pub now : ℤ
  pub spins : List Spin
  pub wait_now : ℤ
  pub select : ℤ → Select
  pub tx : ℤ
  pub written : Bool

-- `waiting` where the busy loop goes on behind the turns that are given.
pub data Waited : Type 0 where
  reached interrupted waiting : Waited

unfoldable pub spin : ℤ → List Spin → Waited
spin target [] = waiting
spin target (s ∷ spins) =
    let rest = spin target spins in
    if s.canceled then interrupted else if not (ltb_ℤ s.now target) then reached else rest

unfoldable pub after_select : Select → Waited
after_select (fired_at time) = reached
after_select done = interrupted

unfoldable pub wait_until : ℤ → Bool → Turn → Waited
wait_until target busy t =
    if busy
    then spin target t.spins
    else let wait = target -ℤ t.wait_now in
      if leb_ℤ wait (pos 0) then reached else after_select (t.select wait)

pub data Ending : Type 0 where
  running : Ending
  duration_over : Ending
  context_done : Ending
  write_failed : ℕ → Ending

-- A turn that sends a packet, or ends `Run`.
pub data Turned : Type 0 where
  sent : Header → Turned
  ended : Ending → Turned

-- t0.Add(time.Duration(seq) * interval)
unfoldable pub target_of : Sender → ℤ → ℕ → ℤ
target_of s t0 seq = t0 +ℤ wrap_i64 (pos (seq * interval s))

unfoldable pub header_of : Sender → ℕ → ℤ → Header
header_of s seq tx = record {
  magic = magic_const;
  flow_id = s.flow_id;
  seq = seq;
  tx_unix_ns = tx;
  token = s.token;
}

unfoldable pub write_packet : Sender → ℕ → Turn → Waited → Turned
write_packet s seq t reached =
    if t.written then sent (header_of s seq t.tx) else ended (write_failed seq)
write_packet s seq t interrupted = ended context_done
write_packet s seq t waiting = ended running

-- s.cfg.Duration > 0 && now.Sub(t0) >= s.cfg.Duration
unfoldable pub is_over : Sender → ℤ → ℤ → Bool
is_over s t0 now = ltb_ℤ (pos 0) s.duration && leb_ℤ s.duration (now -ℤ t0)

unfoldable pub turn : Sender → ℤ → ℕ → Turn → Turned
turn s t0 seq t =
    if t.canceled
    then ended context_done
    else if is_over s t0 t.now
    then ended duration_over
    else write_packet s seq t (wait_until (target_of s t0 seq) (busy_wait s) t)

-- The loop of `Run` from a sequence number on: the packets sent, and how it ended.
unfoldable pub run : Sender → ℤ → ℕ → List Turn → List Header × Ending
run s t0 seq [] = ([], running)
run s t0 seq (t ∷ turns) = elim (turn s t0 seq t) [
  | ended e ↦ ([], e)
  | sent h ↦ let (log, e) = run s t0 (suc seq) turns in (h ∷ log, e)
]
