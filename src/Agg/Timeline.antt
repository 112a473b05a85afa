-- ===== src/Agg/Timeline.antt =====
-- internal/agg/aggregator.go: the timeline of per-second buckets: `bucketAtLocked`,
-- `unwindLossLocked`, and the share of `ingestStreamLocked` and of the hop ingests that writes
-- into a bucket. A write through the pointer that `bucketAtLocked` returns is `at_bucket`, on the
-- first bucket of that second.
pub mod Order
pub mod Totals
pub mod Percent
pub mod Keeps
use dropline.Prelude.{
  ℕ, ◌+◌, ◌-◌, ◌^◌, List, [], ◌∷◌, ◌++◌, Bool, ◌||◌, Option, none, some, not, ltb, leb, ◌==◌,
  if◌then◌else◌,
}
use dropline.Prelude.Int.{ℤ, pos}
use dropline.Prelude.Words.{to_i64}
use dropline.Prelude.Counters.{add64, sub64, is_pos64}
use dropline.Prelude.Floats.{Floats}
use dropline.Agg.State.{Bucket, HopView}

-- d < 0, of an int64.
abbrev pub is_neg64 : ℕ → Bool
is_neg64 d = leb (2 ^ 63) d

module _ {F : Type 0} (fl : Floats F) where
  -- `float64(lost) / float64(total) * 100`, or 0 without traffic.
  unfoldable pub loss_pct : ℕ → ℕ → F
  loss_pct recv lost =
      let total = add64 recv lost in
      if is_pos64 total
      then fl.mul (fl.div (fl.of_int (to_i64 lost)) (fl.of_int (to_i64 total)))
          (fl.of_int (pos 100))
      else fl.of_int (pos 0)

  -- `Bucket{T: idx}`
  unfoldable pub empty_bucket : ℕ → Bucket F
  empty_bucket idx = record {
    t = idx;
    stream_recv = 0;
    stream_lost = 0;
    stream_loss_pct = fl.of_int (pos 0);
    hops = [];
    tcp_hops = [];
  }

  -- a.buckets[n-1]
  unfoldable pub last_t : List (Bucket F) → Option ℕ
  last_t [] = none
  last_t (b ∷ []) = some b.t
  last_t (b ∷ c ∷ bs) = last_t (c ∷ bs)

  -- The search for the first bucket from idx on, and the insertion there.
  unfoldable pub place : ℕ → List (Bucket F) → List (Bucket F)
  place idx [] = empty_bucket idx ∷ []
  place idx (b ∷ bs) =
      let rest = place idx bs in
      if ltb b.t idx then b ∷ rest else if b.t == idx then b ∷ bs else empty_bucket idx ∷ b ∷ bs

  unfoldable pub bucket_at : ℕ → List (Bucket F) → List (Bucket F)
  bucket_at idx bs = elim (last_t bs) [
    | none ↦ bs ++ (empty_bucket idx ∷ [])
    | some t ↦
        if ltb t idx then bs ++ (empty_bucket idx ∷ []) else if t == idx then bs else place idx bs
  ]

  unfoldable pub at_bucket : ℕ → (Bucket F → Bucket F) → List (Bucket F) → List (Bucket F)
  at_bucket idx f [] = []
  at_bucket idx f (b ∷ bs) =
      let rest = at_bucket idx f bs in if b.t == idx then f b ∷ bs else b ∷ rest

  unfoldable pub refresh : Bucket F → Bucket F
  refresh b = record b { stream_loss_pct = loss_pct b.stream_recv b.stream_lost }

  -- One turn of the unwinding loop: what is left to subtract, and the bucket.
  unfoldable pub take_loss : ℕ → Bucket F → ℕ × Bucket F
  take_loss n b =
      if n == 0 || not (is_pos64 b.stream_lost)
      then (n, b)
      else if leb n b.stream_lost
      then (0, refresh (record b { stream_lost = b.stream_lost - n }))
      else (n - b.stream_lost, refresh (record b { stream_lost = 0 }))

  -- The loop, which starts at the tail.
  unfoldable pub unwind : ℕ → List (Bucket F) → ℕ × List (Bucket F)
  unwind n [] = (n, [])
  unwind n (b ∷ bs) =
      let (left, bs') = unwind n bs in let (rest, b') = take_loss left b in (rest, b' ∷ bs')

  -- `unwindLossLocked`, which does nothing unless its argument is above 0 as an int64.
  unfoldable pub unwind_loss : ℕ → List (Bucket F) → List (Bucket F)
  unwind_loss n bs = let unwound = unwind n bs in if is_pos64 n then unwound.1 else bs

  unfoldable pub add_recv : ℕ → Bucket F → Bucket F
  add_recv d b = record b { stream_recv = add64 b.stream_recv d }

  unfoldable pub add_lost : ℕ → Bucket F → Bucket F
  add_lost d b = record b { stream_lost = add64 b.stream_lost d }

  -- `ingestStreamLocked` on the buckets, with the two deltas.
  unfoldable pub record_second : ℕ → ℕ → ℕ → List (Bucket F) → List (Bucket F)
  record_second idx d_recv d_lost bs =
      let counted = at_bucket idx (add_recv d_recv) (bucket_at idx bs) in
      at_bucket idx refresh (
        if is_neg64 d_lost
        then unwind_loss (2 ^ 64 - d_lost) counted
        else at_bucket idx (add_lost d_lost) counted)
