-- ===== src/Control/Framing/RoundTrip.antt =====
-- Frames on the control channel: what is written is read back, whatever follows, and nothing
-- larger than the limit is written or accepted.
use dropline.Prelude.{
  ℕ, ◌≤◌, ◌<◌, List, [], ◌∷◌, ◌++◌, Bool, true, false, none, some, length, length-append,
  length-take, take-append-drop, take, drop, take-append, drop-append, ltb, ltb→lt, ◌≡◌, refl, sym,
  ap, ◌∙◌, arith, ◌⊎◌, inl, inr, Bool-cases,
}
use mathlib.Core.List.{append-nil, append_assoc}
use dropline.Prelude.Words.{put_be, get_be, get_be-put_be}
use dropline.Control.Framing.{
  max_frame_size, frame_too_large, frame, write_body, write_frame, read_body, read_frame,
}

-- The bytes of a frame.
abbrev pub framed : List ℕ → List ℕ
framed payload = put_be 4 (length payload) ++ payload

-- `take` and `drop` at a length that the first part has.
split_at :
    (n : ℕ) (xs ys : List ℕ) → length xs ≡ n → (take n (xs ++ ys) ≡ xs) × (drop n (xs ++ ys) ≡ ys)
split_at n xs ys e = (
  ap (λ k. take k (xs ++ ys)) (sym e) ∙ take-append xs ys,
  ap (λ k. drop k (xs ++ ys)) (sym e) ∙ drop-append xs ys,
)

read_body-framed :
    (payload rest : List ℕ)
    → length payload ≤ max_frame_size
    → read_body (length payload) (payload ++ rest) ≡ frame payload rest
unfolding read_body
read_body-framed [] rest h = refl
read_body-framed (x ∷ xs) rest h =
    let s = split_at (length (x ∷ xs)) (x ∷ xs) rest refl in
    ground (arith, length-append xs rest, s.0, s.1)

read_frame_long :
    (bytes : List ℕ)
    → 4 ≤ length bytes
    → read_frame bytes ≡ read_body (get_be (take 4 bytes)) (drop 4 bytes)
unfolding read_frame
read_frame_long bytes h = ground arith

-- A frame is read back, and the bytes behind it are left.
pub read_frame-framed :
    (payload rest : List ℕ)
    → length payload ≤ max_frame_size
    → read_frame (framed payload ++ rest) ≡ frame payload rest
unfolding put_be
read_frame-framed payload rest h =
    read_frame_long (framed payload ++ rest) (omega arith)
    ∙ ap (λ n. read_body n (payload ++ rest)) (get_be-put_be 4 (length payload) (omega arith))
    ∙ read_body-framed payload rest h

module _ {W : Type 0} (write : W → List ℕ → Bool × W) (contents : W → List ℕ)
    (accepts : (w : W) (bs : List ℕ) → (write w bs).0 ≡ true)
    (appends : (w : W) (bs : List ℕ) → contents (write w bs).1 ≡ contents w ++ bs) where
  write_body_lem :
      (r : Bool × W) (payload : List ℕ)
      → r.0 ≡ true
      → ((write_body write r payload).0 ≡ none)
        × (contents (write_body write r payload).1 ≡ contents r.1 ++ payload)
  unfolding write_body
  write_body_lem (false, w) payload e = cc
  write_body_lem (true, w) [] e = (refl, sym (append-nil (contents w)))
  write_body_lem (true, w) (x ∷ xs) e =
      (ground (arith, accepts w (x ∷ xs)), ground (arith, appends w (x ∷ xs)))

  -- Over a connection that takes every write and appends it to what is underway: a payload over
  -- the limit is refused with `ErrFrameTooLarge` and nothing is written; any other is sent without
  -- an error, and `ReadFrame` at the other end reads that payload off the bytes that were added,
  -- and leaves what is sent behind it.
  pub read_frame-write_frame :
      (w : W) (payload rest : List ℕ)
      → ((max_frame_size < length payload)
          × (write_frame write w payload ≡ (some frame_too_large, w)))
        ⊎ ((length payload ≤ max_frame_size)
            × ((write_frame write w payload).0 ≡ none)
            × ((sent : List ℕ) × (contents (write_frame write w payload).1 ≡ contents w ++ sent)
                × (read_frame (sent ++ rest) ≡ frame payload rest)))
  unfolding write_frame
  read_frame-write_frame w payload rest = elim (Bool-cases (ltb max_frame_size (length payload))) [
    | inl e ↦ inl (ltb→lt _ _ e, rw e)
    | inr e ↦
        let small : length payload ≤ max_frame_size = ground arith in
        let header = put_be 4 (length payload) in
        let (done, all) = write_body_lem (write w header) payload (accepts w header) in
        inr (
          small,
          rw e done,
          (
            framed payload,
            rw e (
                all
                ∙ ap (λ bs. bs ++ payload) (appends w header)
                ∙ append_assoc (contents w) header payload),
            read_frame-framed payload rest small,
          ),
        )
  ]

read_body_sound :
    (n : ℕ) (bytes payload rest : List ℕ)
    → read_body n bytes ≡ frame payload rest
    → (length payload ≡ n) × (n ≤ max_frame_size) × (payload ++ rest ≡ bytes)
unfolding read_body
read_body_sound n bytes payload rest e =
    ground (arith, take-append-drop n bytes, length-take n bytes)

-- What `ReadFrame` accepts of any bytes: a payload within the limit, which with the rest is
-- everything behind the four bytes of the header, and has the length that the header announces.
-- Nothing is cut off, and no more than the limit is allocated.
read_frame_sound :
    (bytes payload rest : List ℕ)
    → read_frame bytes ≡ frame payload rest
    → (4 ≤ length bytes)
      × (length payload ≡ get_be (take 4 bytes))
      × (length payload ≤ max_frame_size)
      × (payload ++ rest ≡ drop 4 bytes)
unfolding read_frame
read_frame_sound bytes payload rest e = elim (Bool-cases (ltb (length bytes) 4)) [
  | inl short ↦ ground (arith, short, e)
  | inr long ↦
      let s =
        read_body_sound (get_be (take 4 bytes)) (drop 4 bytes) payload rest
          (ground (arith, long, e)) in
      (ground arith, s.0, omega (arith, s.0, s.1), s.2)
]
