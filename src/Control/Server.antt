-- ===== src/Control/Server.antt =====
-- internal/control/server.go: the accept loop with its cap on pending connections and its backoff,
-- and the dispatch of a connection by its first message. Times are nanoseconds. A connection of the
-- loop is one of the events below; what the handlers do with it is not part of this module.
pub mod Laws
use dropline.Prelude.{
  ℕ, ◌+◌, ◌-◌, ◌*◌, String, Bool, true, false, Option, none, some, List, [], ◌∷◌, ltb, ◌==◌,
  if◌then◌else◌,
}
use dropline.Prelude.Int.{ℤ, pos, ltb_ℤ, pos_part}
use dropline.Control.Messages.{
  Hello, TcpProbe, Message, hello, ready, error, stats, final, reverse_hop_update,
  reverse_tcp_hop_update, tcp_probe,
}
use dropline.Control.Codec.{Received, message, broken}

abbrev pub millisecond : ℕ
millisecond = 1000000

-- What `handle` does with a connection: the message it sends, if any, and who gets it.
pub data Handled : Type 0 where
  closed : Handled
  to_handler : Hello → Handled
  to_probe_handler : TcpProbe → Handled
  refused : String → Handled

unfoldable pub handle_message : {F : Type 0} → Bool → Message F → Handled
handle_message probes (hello m) = to_handler m
handle_message true (tcp_probe m) = to_probe_handler m
handle_message false (tcp_probe m) = refused "tcp_probe not supported by this server"
handle_message probes _ = refused "expected hello"

-- `probes` says whether `ProbeHandler` is set.
unfoldable pub handle : {F : Type 0} → Bool → Received F → Handled
handle probes (broken e) = closed
handle probes (message m rest) = handle_message probes m

-- The state of `serve`: the slots of `sem` that are held, and `tempDelay`.
pub record AcceptLoop : Type 0 where
  pub pending : ℕ
  pub temp_delay : ℕ

abbrev pub start : AcceptLoop
start = record { pending = 0; temp_delay = 0 }

-- What `Accept` returned, or that a goroutine's `handle` came back.
pub data Event : Type 0 where
  accepted temporary_error finished : Event

-- What becomes of it.
pub data Outcome : Type 0 where
  spawned dropped idle : Outcome
  waits : ℕ → Outcome

-- The backoff on a transient error.
unfoldable pub next_delay : ℕ → ℕ
next_delay d =
    let doubled = if d == 0 then 5 * millisecond else d * 2 in
    if ltb (1000 * millisecond) doubled then 1000 * millisecond else doubled

-- `max_pending` is `MaxPendingConns`; no semaphore is made where it is not positive.
unfoldable pub on_event : ℤ → AcceptLoop → Event → Outcome × AcceptLoop
on_event max_pending s accepted =
    if ltb_ℤ (pos 0) max_pending
    then (if ltb s.pending (pos_part max_pending)
        then (spawned, record { pending = s.pending + 1; temp_delay = 0 })
        else (dropped, record { pending = s.pending; temp_delay = 0 }))
    else (spawned, record { pending = s.pending; temp_delay = 0 })
on_event max_pending s temporary_error =
    (waits (next_delay s.temp_delay), record s { temp_delay = next_delay s.temp_delay })
on_event max_pending s finished = (idle, record s { pending = s.pending - 1 })

unfoldable pub on_events : ℤ → AcceptLoop → List Event → AcceptLoop
on_events max_pending s [] = s
on_events max_pending s (e ∷ es) = on_events max_pending (on_event max_pending s e).1 es
