-- ===== src/Control/Framing.antt =====
-- internal/control/framing.go, `WriteFrame` and `ReadFrame`. An io.Writer is a state and a `Write`
-- that says whether it failed; an io.Reader is the list of the bytes that it will still give before
-- its end, and `io.ReadFull` fails on fewer than it wants.
pub mod RoundTrip
use dropline.Prelude.{
  ℕ, ◌*◌, ◌^◌, List, [], ◌∷◌, ◌++◌, Bool, true, false, not, Option, none, some, length, take, drop,
  ltb, ◌==◌, if◌then◌else◌,
}
use dropline.Prelude.Words.{put_be, get_be}

abbrev pub max_frame_size : ℕ
max_frame_size = 64 * 2 ^ 10

pub data FrameError : Type 0 where
  frame_too_large write_header write_payload read_header read_payload : FrameError

module _ {W : Type 0} (write : W → List ℕ → Bool × W) where
  -- The payload's turn, after the header went out.
  unfoldable pub write_body : Bool × W → List ℕ → Option FrameError × W
  write_body (false, w) payload = (some write_header, w)
  write_body (true, w) payload =
      if length payload == 0
      then (none, w)
      else let (done, w') = write w payload in (if done then none else some write_payload, w')

  unfoldable pub write_frame : W → List ℕ → Option FrameError × W
  write_frame w payload =
      if ltb max_frame_size (length payload)
      then (some frame_too_large, w)
      else write_body (write w (put_be 4 (length payload))) payload

-- A payload and the bytes behind it, or an error.
pub data ReadResult : Type 0 where
  frame : List ℕ → List ℕ → ReadResult
  failed : FrameError → ReadResult

unfoldable pub read_body : ℕ → List ℕ → ReadResult
read_body n rest =
    if ltb max_frame_size n
    then failed frame_too_large
    else if n == 0
    then frame [] rest
    else if ltb (length rest) n
    then failed read_payload
    else frame (take n rest) (drop n rest)

unfoldable pub read_frame : List ℕ → ReadResult
read_frame bytes =
    if ltb (length bytes) 4
    then failed read_header
    else read_body (get_be (take 4 bytes)) (drop 4 bytes)
