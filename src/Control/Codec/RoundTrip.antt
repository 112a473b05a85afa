-- ===== src/Control/Codec/RoundTrip.antt =====
-- A message that is sent is received as itself.
use dropline.Prelude.{
  ℕ, String, List, ◌++◌, Bool, true, none, some, length, ◌≤◌, ◌≡◌, ap, ◌∙◌, arith, inl, inr,
}
use dropline.Control.Messages.{
  Message, hello, ready, error, stats, final, reverse_hop_update, reverse_tcp_hop_update, tcp_probe,
  type_hello, type_ready, type_error, type_stats, type_final, type_reverse_hop_update,
  type_reverse_tcp_hop_update, type_tcp_probe,
}
use dropline.Control.Framing.{frame, max_frame_size}
use dropline.Control.Framing.RoundTrip.{read_frame-write_frame}
use dropline.Control.Codec.{
  Json, message, type_of, write_message, unmarshal, by_type, read_payload_message, read_message,
}

module _ {F : Type 0} (json : Json F) where
  -- `Unmarshal` of a payload into the struct of a message gives that message.
  abbrev pub Decodes : Message F → List ℕ → Type 0
  Decodes (hello m) p = json.to_hello p ≡ some m
  Decodes (ready m) p = json.to_ready p ≡ some m
  Decodes (error m) p = json.to_error p ≡ some m
  Decodes (stats m) p = json.to_stats p ≡ some m
  Decodes (final m) p = json.to_final p ≡ some m
  Decodes (reverse_hop_update m) p = json.to_reverse_hop_update p ≡ some m
  Decodes (reverse_tcp_hop_update m) p = json.to_reverse_tcp_hop_update p ≡ some m
  Decodes (tcp_probe m) p = json.to_tcp_probe p ≡ some m

  -- The documented behaviour of encoding/json on a message that JSON can carry (finite floats,
  -- valid UTF-8 in its strings): what `Marshal` writes has the type field under its key, and
  -- `Unmarshal` into the same struct restores the value.
  pub record IsFaithful (m : Message F) : Type 0 where
    pub envelope : (p : List ℕ) → json.marshal m ≡ some p → json.envelope p ≡ some (type_of m)
    pub body : (p : List ℕ) → json.marshal m ≡ some p → Decodes m p

  -- The discriminator that the sender has to fill in.
  abbrev pub own_type : Message F → String
  own_type (hello m) = type_hello
  own_type (ready m) = type_ready
  own_type (error m) = type_error
  own_type (stats m) = type_stats
  own_type (final m) = type_final
  own_type (reverse_hop_update m) = type_reverse_hop_update
  own_type (reverse_tcp_hop_update m) = type_reverse_tcp_hop_update
  own_type (tcp_probe m) = type_tcp_probe

  by_type_lem :
      (m : Message F) (p rest : List ℕ)
      → Decodes m p
      → by_type json (own_type m) p rest ≡ message m rest
  unfolding by_type unmarshal
  by_type_lem (hello m) p rest d = rw d
  by_type_lem (ready m) p rest d = rw d
  by_type_lem (error m) p rest d = rw d
  by_type_lem (stats m) p rest d = rw d
  by_type_lem (final m) p rest d = rw d
  by_type_lem (reverse_hop_update m) p rest d = rw d
  by_type_lem (reverse_tcp_hop_update m) p rest d = rw d
  by_type_lem (tcp_probe m) p rest d = rw d

  enveloped :
      (t : String) (p rest : List ℕ)
      → json.envelope p ≡ some t
      → read_payload_message json (frame p rest) ≡ by_type json t p rest
  unfolding read_payload_message
  enveloped t p rest e = rw (e, read_payload_message)

module _ {F W : Type 0} (json : Json F) (write : W → List ℕ → Bool × W) (contents : W → List ℕ)
    (accepts : (w : W) (bs : List ℕ) → (write w bs).0 ≡ true)
    (appends : (w : W) (bs : List ℕ) → contents (write w bs).1 ≡ contents w ++ bs) where
  -- Over a connection that takes every write: a message that JSON can carry, with the type string
  -- of its kind, and whose JSON is within the frame limit, is sent without error, and the other end
  -- receives that message, of that kind, and has the bytes sent behind it still to read.
  pub read_message-write_message :
      (w : W) (m : Message F) (p rest : List ℕ)
      → IsFaithful json m
      → type_of m ≡ own_type json m
      → json.marshal m ≡ some p
      → length p ≤ max_frame_size
      → ((write_message json write w m).0 ≡ none)
        × ((sent : List ℕ) × (contents (write_message json write w m).1 ≡ contents w ++ sent)
            × (read_message json (sent ++ rest) ≡ message m rest))
  unfolding write_message
  read_message-write_message w m p rest faithful t e small =
      elim (read_frame-write_frame write contents accepts appends w p rest) [
        | inl (large, _) ↦ absurd (omega arith)
        | inr (_, done, (sent, all, back)) ↦ (
          ground (arith, e, done),
          (
            sent,
            rw (e, write_message) all,
            unfold read_message in
                (ap (read_payload_message json) back
                  ∙ enveloped json (type_of m) p rest (faithful.envelope p e)
                  ∙ ap (λ t'. by_type json t' p rest) t
                  ∙ by_type_lem json m p rest (faithful.body p e)),
          ),
        )
      ]
