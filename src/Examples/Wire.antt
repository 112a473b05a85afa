-- ===== src/Examples/Wire.antt =====
-- internal/control: a connection that appends, a codec that carries a TCPProbe, and an accept loop.
use dropline.Prelude.{
  ℕ, ◌+◌, ◌*◌, ◌<◌, ◌≤◌, List, [], ◌∷◌, ◌++◌, Option, none, some, Bool, true, length, ◌≡◌, ◌⊎◌,
  refl, arith,
}
use dropline.Prelude.Int.{ℤ, pos}
use dropline.Prelude.Words.{get_be, read_be}
use dropline.Control.Messages.{Message, tcp_probe, TcpProbe, type_tcp_probe}
use dropline.Control.Framing.{
  max_frame_size, frame_too_large, write_frame, read_frame, read_body, frame,
}
use dropline.Control.Framing.RoundTrip.{read_frame-write_frame}
use dropline.Control.Codec.{Json, message, type_of, write_message, read_message}
use dropline.Control.Codec.RoundTrip.{read_message-write_message, IsFaithful}
use dropline.Control.Server.{
  Event, accepted, temporary_error, finished, spawned, dropped, start, millisecond, on_event,
  on_events,
}
use dropline.Control.Server.Laws.{pending_capped}

-- The connection: the bytes that are underway.
abbrev append : List ℕ → List ℕ → Bool × List ℕ
append w bs = (true, w ++ bs)

abbrev underway : List ℕ → List ℕ
underway w = w

abbrev payload : List ℕ
payload = 1 ∷ 2 ∷ 3 ∷ []

read_frame-write_frame_example :
    ((max_frame_size < length payload)
      × (write_frame append [] payload ≡ (some frame_too_large, [])))
    ⊎ ((length payload ≤ max_frame_size)
        × ((write_frame append [] payload).0 ≡ none)
        × ((sent : List ℕ) × (underway (write_frame append [] payload).1 ≡ underway [] ++ sent)
            × (read_frame (sent ++ (9 ∷ [])) ≡ frame payload (9 ∷ []))))
read_frame-write_frame_example =
    read_frame-write_frame append underway (λ w bs. refl) (λ w bs. refl) [] payload (9 ∷ [])

abbrev bytes : List ℕ
bytes = 0 ∷ 0 ∷ 0 ∷ 2 ∷ 5 ∷ 6 ∷ 7 ∷ []

abbrev body : List ℕ
body = 5 ∷ 6 ∷ []

read_frame_run : read_frame bytes ≡ frame body (7 ∷ [])
unfolding read_frame read_body get_be read_be
read_frame_run = refl

abbrev probe : TcpProbe
probe = record { type = "tcp_probe"; session_id = "a1"; rate_bps = pos 100000 }

abbrev marshal_probe : Message ℤ → Option (List ℕ)
marshal_probe (tcp_probe m) = some payload
marshal_probe m = none

-- A codec whose only text is that of `probe`.
abbrev codec : Json ℤ
codec = record {
  marshal = marshal_probe;
  envelope = λ p. some type_tcp_probe;
  to_hello = λ p. none;
  to_ready = λ p. none;
  to_error = λ p. none;
  to_stats = λ p. none;
  to_final = λ p. none;
  to_reverse_hop_update = λ p. none;
  to_reverse_tcp_hop_update = λ p. none;
  to_tcp_probe = λ p. some probe;
}

codec-IsFaithful : IsFaithful codec (tcp_probe probe)
unfolding type_of
codec-IsFaithful = record { envelope = λ p e. refl; body = λ p e. refl }

probe_type : type_of {F = ℤ} (tcp_probe probe) ≡ type_tcp_probe
unfolding type_of
probe_type = refl

read_message-write_message_example :
    ((write_message codec append [] (tcp_probe probe)).0 ≡ none)
    × ((sent : List ℕ) × (underway (write_message codec append [] (tcp_probe probe)).1
          ≡ underway [] ++ sent)
        × (read_message codec (sent ++ (9 ∷ [])) ≡ message (tcp_probe probe) (9 ∷ [])))
read_message-write_message_example =
    read_message-write_message codec append underway (λ w bs. refl) (λ w bs. refl) []
      (tcp_probe probe) payload (9 ∷ []) codec-IsFaithful probe_type refl (omega arith)

abbrev events : List Event
events = accepted ∷ temporary_error ∷ accepted ∷ finished ∷ []

pending_capped_example :
    ((on_events (pos 2) start events).pending ≤ 2)
    × ((on_events (pos 2) start events).temp_delay ≤ 1000 * millisecond)
    × ((((on_events (pos 2) start events).pending < 2)
          × (on_event (pos 2) (on_events (pos 2) start events) accepted ≡ (
            spawned,
            record { pending = (on_events (pos 2) start events).pending + 1; temp_delay = 0 },
          )))
        ⊎ (((on_events (pos 2) start events).pending ≡ 2)
            × (on_event (pos 2) (on_events (pos 2) start events) accepted
                ≡ (dropped, record { pending = 2; temp_delay = 0 }))))
pending_capped_example = pending_capped 2 events (omega arith)
