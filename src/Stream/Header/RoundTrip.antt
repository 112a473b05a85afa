-- ===== src/Stream/Header/RoundTrip.antt =====
-- What `EncodeHeader` writes and what `DecodeHeader` reads of it.
use dropline.Prelude.{
  ℕ, ◌+◌, ◌≤◌, ◌<◌, List, [], ◌∷◌, ◌++◌, none, some, length, drop, drop-drop, length-drop, ltb, ◌≡◌,
  refl, ap, ◌∙◌, arith, ◌⊎◌, inl, inr, ◌≢◌, Bool-cases, ltb→lt,
}
use dropline.Prelude.Words.{
  put_be, get_be, get_be-put_be, length-put_be, to_u64, to_i64, to_i64-to_u64, to_u64-lt,
}
use dropline.Stream.Header.{
  Header, IsInRange, ok, err, short_packet, bad_magic, magic_const, write_at, write_fields,
  encode_header, read_fields, decode_header,
}

-- The 32 bytes of a header on the wire.
abbrev pub wire : Header → List ℕ
wire h =
    put_be 4 h.magic
    ++ (put_be 4 h.flow_id
        ++ (put_be 8 h.seq ++ (put_be 8 (to_u64 h.tx_unix_ns) ++ put_be 8 h.token)))

write_over :
    (bs buf : List ℕ) → length bs ≤ length buf → write_at 0 bs buf ≡ bs ++ drop (length bs) buf
write_over [] buf h = refl
write_over (b ∷ bs) [] h = absurd (omega arith)
write_over (b ∷ bs) (x ∷ buf) h = ap (◌∷◌ b) (write_over bs buf (omega arith))

-- A coding of k bytes written over the first k bytes of what stands from i on.
put_over :
    (k i n : ℕ) (buf : List ℕ)
    → i + k ≤ length buf
    → write_at 0 (put_be k n) (drop i buf) ≡ put_be k n ++ drop (i + k) buf
put_over k i n buf h =
    write_over (put_be k n) (drop i buf) (omega (arith, length-put_be k n, length-drop i buf))
    ∙ ap (λ b. put_be k n ++ b)
        (ap (λ (j : ℕ). drop j (drop i buf)) (length-put_be k n) ∙ drop-drop k i buf)

module _ (buf : List ℕ) (h : Header) (len : 32 ≤ length buf) where
  -- The five writes put the header on the wire over the first 32 bytes, and keep the rest.
  pub write_fields_lem : write_fields buf h ≡ wire h ++ drop 32 buf
  unfolding write_fields put_be
  write_fields_lem =
      ap (λ b. over_token (over_time (over_seq (over_flow b))))
        (put_over 4 0 h.magic buf (omega arith))
      ∙ ap (λ b. over_token (over_time (over_seq (put_be 4 h.magic ++ b))))
          (put_over 4 4 h.flow_id buf (omega arith))
      ∙ ap (λ b. over_token (over_time (put_be 4 h.magic ++ (put_be 4 h.flow_id ++ b))))
          (put_over 8 8 h.seq buf (omega arith))
      ∙ ap (λ b. over_token (put_be 4 h.magic ++ (put_be 4 h.flow_id ++ (put_be 8 h.seq ++ b))))
          (put_over 8 16 (to_u64 h.tx_unix_ns) buf (omega arith))
      ∙ ap
          (λ b.
            put_be 4 h.magic
            ++ (put_be 4 h.flow_id ++ (put_be 8 h.seq ++ (put_be 8 (to_u64 h.tx_unix_ns) ++ b))))
          (put_over 8 24 h.token buf (omega arith))
    where
      over_token : List ℕ → List ℕ
      over_token = write_at 24 (put_be 8 h.token)

      over_time : List ℕ → List ℕ
      over_time = write_at 16 (put_be 8 (to_u64 h.tx_unix_ns))

      over_seq : List ℕ → List ℕ
      over_seq = write_at 8 (put_be 8 h.seq)

      over_flow : List ℕ → List ℕ
      over_flow = write_at 4 (put_be 4 h.flow_id)

-- Reading the fields off the wire gives the header, whatever follows it.
pub read_fields-wire : (h : Header) (rest : List ℕ) → IsInRange h → read_fields (wire h ++ rest) ≡ h
unfolding read_fields put_be
read_fields-wire h rest r = λ i. record {
  magic = get_be-put_be 4 h.magic r.magic_u32 i;
  flow_id = get_be-put_be 4 h.flow_id r.flow_id_u32 i;
  seq = get_be-put_be 8 h.seq r.seq_u64 i;
  tx_unix_ns = tx i;
  token = get_be-put_be 8 h.token r.token_u64 i;
}
  where
    tx : to_i64 (get_be (put_be 8 (to_u64 h.tx_unix_ns))) ≡ h.tx_unix_ns
    tx =
        ap to_i64 (get_be-put_be 8 (to_u64 h.tx_unix_ns) (to_u64-lt h.tx_unix_ns))
        ∙ to_i64-to_u64 h.tx_unix_ns r.tx_i64

-- The errors of `DecodeHeader`: which of the three answers it gives, and when.
decode_header_cases :
    (buf : List ℕ)
    → ((length buf < 32) × (decode_header buf ≡ err short_packet))
      ⊎ ((32 ≤ length buf)
          × ((read_fields buf).magic ≢ magic_const)
          × (decode_header buf ≡ err bad_magic))
      ⊎ ((32 ≤ length buf)
          × ((read_fields buf).magic ≡ magic_const)
          × (decode_header buf ≡ ok (read_fields buf)))
unfolding decode_header
decode_header_cases buf = ground arith

decode_wire :
    (h : Header) (rest : List ℕ)
    → IsInRange h
    → h.magic ≡ magic_const
    → decode_header (wire h ++ rest) ≡ ok h
decode_wire h rest r m = elim (decode_header_cases (wire h ++ rest)) [
  | inl short ↦ absurd (unfold put_be in omega (arith, short.0))
  | inr (inl bad) ↦ absurd (bad.1 (ap (λ (g : Header). g.magic) (read_fields-wire h rest r) ∙ m))
  | inr (inr good) ↦ good.2 ∙ ap ok (read_fields-wire h rest r)
]

-- Encoding a header with the magic constant over a buffer of at least 32 bytes keeps the length
-- and every byte behind the header, and decoding the buffer gives the header back. A shorter
-- buffer makes `EncodeHeader` panic and `DecodeHeader` answer `ErrShortPacket`.
pub decode-encode :
    (buf : List ℕ) (h : Header)
    → IsInRange h
    → h.magic ≡ magic_const
    → ((length buf < 32) × (encode_header buf h ≡ none) × (decode_header buf ≡ err short_packet))
      ⊎ ((out : List ℕ) × (encode_header buf h ≡ some out)
          × (drop 32 out ≡ drop 32 buf)
          × (length out ≡ length buf)
          × (decode_header out ≡ ok h))
unfolding encode_header
decode-encode buf h r m = elim (Bool-cases (ltb (length buf) 32)) [
  | inl e ↦ inl (ltb→lt _ _ e, rw e, unfold decode_header in rw e)
  | inr e ↦
      let len : 32 ≤ length buf = ground arith in
      inr (
        wire h ++ drop 32 buf,
        rw e (ap some (write_fields_lem buf h len)),
        unfold put_be in refl,
        unfold put_be in omega (arith, length-drop 32 buf),
        decode_wire h (drop 32 buf) r m,
      )
]
