-- ===== src/Stream/Header.antt =====
-- internal/stream/header.go: the 32-byte header of every loss-test packet. A buffer is a list of
-- bytes. `encode_header` answers `none` where the source panics on the bounds check of its first
-- line; `decode_header` returns Go's (value, error) pair as a sum.
pub mod RoundTrip
use dropline.Prelude.{
  ℕ, zero, suc, ◌+◌, ◌-◌, ◌≤◌, ◌<◌, ◌^◌, List, [], ◌∷◌, ◌++◌, Option, none, some, length, take,
  drop, ltb, leb, ◌==◌, if◌then◌else◌, ◌≡◌, arith, Bool, refl, All,
}
use dropline.Prelude.Int.{ℤ}
use dropline.Prelude.Words.{put_be, get_be, to_u64, to_i64, IsI64, IsByte}

pub record Header : Type 0 where
  pub magic : ℕ
  pub flow_id : ℕ
  pub seq : ℕ
  pub tx_unix_ns : ℤ
  pub token : ℕ

abbrev pub magic_const : ℕ
magic_const = 0x4452504C

abbrev pub header_size : ℕ
header_size = 32

abbrev pub max_packet_size : ℕ
max_packet_size = 65507

pub data Error : Type 0 where
  short_packet bad_magic : Error

pub data Decoded : Type 0 where
  ok : Header → Decoded
  err : Error → Decoded

-- What the Go types hold of every header.
pub record IsInRange (h : Header) : Type 0 where
  pub magic_u32 : h.magic < 2 ^ 32
  pub flow_id_u32 : h.flow_id < 2 ^ 32
  pub seq_u64 : h.seq < 2 ^ 64
  pub tx_i64 : IsI64 h.tx_unix_ns
  pub token_u64 : h.token < 2 ^ 64

-- buf[i:j]
abbrev pub slice : ℕ → ℕ → List ℕ → List ℕ
slice i j buf = take (j - i) (drop i buf)

-- copy(buf[i:], bs), with bs inside of buf
abbrev pub write_at : ℕ → List ℕ → List ℕ → List ℕ
write_at zero [] buf = buf
write_at zero (b ∷ bs) [] = []
write_at zero (b ∷ bs) (x ∷ buf) = b ∷ write_at zero bs buf
write_at (suc i) bs [] = []
write_at (suc i) bs (x ∷ buf) = x ∷ write_at i bs buf

-- The five writes of `EncodeHeader`, in its order.
unfoldable pub write_fields : List ℕ → Header → List ℕ
write_fields buf h = write_at 24 (put_be 8 h.token) (
    write_at 16 (put_be 8 (to_u64 h.tx_unix_ns)) (
      write_at 8 (put_be 8 h.seq)
        (write_at 4 (put_be 4 h.flow_id) (write_at 0 (put_be 4 h.magic) buf))))

unfoldable pub encode_header : List ℕ → Header → Option (List ℕ)
unfolding write_fields
encode_header buf h = if ltb (length buf) header_size then none else some (write_fields buf h)

-- The header that the first 32 bytes spell.
unfoldable pub read_fields : List ℕ → Header
read_fields buf = record {
  magic = get_be (slice 0 4 buf);
  flow_id = get_be (slice 4 8 buf);
  seq = get_be (slice 8 16 buf);
  tx_unix_ns = to_i64 (get_be (slice 16 24 buf));
  token = get_be (slice 24 32 buf);
}

unfoldable pub decode_header : List ℕ → Decoded
unfolding read_fields
decode_header buf =
    if ltb (length buf) header_size
    then err short_packet
    else if (read_fields buf).magic == magic_const
    then ok (read_fields buf)
    else err bad_magic
