-- ===== src/Control/Codec.antt =====
-- internal/control/framing.go, `WriteMessage` and `ReadMessage`, over encoding/json as a parameter:
-- `marshal`, the envelope's type string, and `Unmarshal` into each of the message structs. `none`
-- is an error of the package.
pub mod RoundTrip
use dropline.Prelude.{ℕ, String, str_eq, List, [], ◌∷◌, Bool, Option, none, some, if◌then◌else◌}
use dropline.Control.Messages.{
  Message, hello, ready, error, stats, final, reverse_hop_update, reverse_tcp_hop_update, tcp_probe,
  Hello, Ready, ErrorMessage, Stats, Final, ReverseHopUpdate, ReverseTcpHopUpdate, TcpProbe,
  type_hello, type_ready, type_error, type_stats, type_final, type_reverse_hop_update,
  type_reverse_tcp_hop_update, type_tcp_probe,
}
use dropline.Control.Framing.{FrameError, ReadResult, frame, failed, write_frame, read_frame}

pub record Json (F : Type 0) : Type 0 where
  pub marshal : Message F → Option (List ℕ)
  pub envelope : List ℕ → Option String
  pub to_hello : List ℕ → Option Hello
  pub to_ready : List ℕ → Option Ready
  pub to_error : List ℕ → Option ErrorMessage
  pub to_stats : List ℕ → Option (Stats F)
  pub to_final : List ℕ → Option (Final F)
  pub to_reverse_hop_update : List ℕ → Option (ReverseHopUpdate F)
  pub to_reverse_tcp_hop_update : List ℕ → Option (ReverseTcpHopUpdate F)
  pub to_tcp_probe : List ℕ → Option TcpProbe

pub data CodecError : Type 0 where
  in_frame : FrameError → CodecError
  in_marshal in_envelope : CodecError
  unknown_type : String → CodecError
  in_body : String → CodecError

-- What `ReadMessage` returns, with the bytes left on the connection.
pub data Received (F : Type 0) : Type 0 where
  message : Message F → List ℕ → Received F
  broken : CodecError → Received F

unfoldable pub type_of : {F : Type 0} → Message F → String
type_of (hello m) = m.type
type_of (ready m) = m.type
type_of (error m) = m.type
type_of (stats m) = m.type
type_of (final m) = m.type
type_of (reverse_hop_update m) = m.type
type_of (reverse_tcp_hop_update m) = m.type
type_of (tcp_probe m) = m.type

module _ {F : Type 0} (json : Json F) where
  unfoldable pub write_message :
      {W : Type 0} → (W → List ℕ → Bool × W) → W → Message F → Option CodecError × W
  write_message write w m = elim (json.marshal m) [
    | none ↦ (some in_marshal, w)
    | some payload ↦
        let (e, w') = write_frame write w payload in
        (elim e [ none ↦ none | some x ↦ some (in_frame x) ], w')
  ]

  -- `if err := json.Unmarshal(payload, msg); err != nil`
  unfoldable pub unmarshal :
      {A : Type 0} → Option A → (A → Message F) → String → List ℕ → Received F
  unmarshal none build t rest = broken (in_body t)
  unmarshal (some a) build t rest = message (build a) rest

  -- The switch on the discriminator.
  unfoldable pub by_type : String → List ℕ → List ℕ → Received F
  by_type t payload rest =
      if str_eq t type_hello
      then unmarshal (json.to_hello payload) hello t rest
      else if str_eq t type_ready
      then unmarshal (json.to_ready payload) ready t rest
      else if str_eq t type_error
      then unmarshal (json.to_error payload) error t rest
      else if str_eq t type_stats
      then unmarshal (json.to_stats payload) stats t rest
      else if str_eq t type_final
      then unmarshal (json.to_final payload) final t rest
      else if str_eq t type_reverse_hop_update
      then unmarshal (json.to_reverse_hop_update payload) reverse_hop_update t rest
      else if str_eq t type_reverse_tcp_hop_update
      then unmarshal (json.to_reverse_tcp_hop_update payload) reverse_tcp_hop_update t rest
      else if str_eq t type_tcp_probe
      then unmarshal (json.to_tcp_probe payload) tcp_probe t rest
      else broken (unknown_type t)

  unfoldable pub read_payload_message : ReadResult → Received F
  read_payload_message (failed e) = broken (in_frame e)
  read_payload_message (frame payload rest) = elim (json.envelope payload) [
    | none ↦ broken in_envelope
    | some t ↦ by_type t payload rest
  ]

  unfoldable pub read_message : List ℕ → Received F
  read_message bytes = read_payload_message (read_frame bytes)
