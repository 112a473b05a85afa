-- ===== src/Agg/Timeline/Keeps.antt =====
-- internal/agg/aggregator.go: writes into a bucket's hop tables leave the stream side alone.
use dropline.Prelude.{
  ℕ, suc, List, [], ◌∷◌, ◌==◌, All, map, ◌≡◌, inl, inr, refl, ◌∙◌, arith, Bool-cases,
}
use dropline.Prelude.Floats.{Floats}
use dropline.Agg.State.{Bucket}
use dropline.Agg.Timeline.{bucket_at, at_bucket}
use dropline.Agg.Timeline.Order.{IsAscending, times, bucket_at-IsAscending}
use dropline.Agg.Timeline.Totals.{sum_recv, sum_lost, bucket_at_sums}
use dropline.Agg.Timeline.Percent.{IsConsistent, bucket_at-All}

-- The stream side of one bucket is that of another.
abbrev pub IsSameSide : {F : Type 0} → Bucket F → Bucket F → Type 0
IsSameSide c b =
    (c.t ≡ b.t)
    × (c.stream_recv ≡ b.stream_recv)
    × (c.stream_lost ≡ b.stream_lost)
    × (c.stream_loss_pct ≡ b.stream_loss_pct)

module _ {F : Type 0} (fl : Floats F) where
  -- The buckets are in order, each percentage is right, and the totals are these.
  abbrev pub IsTimeline : ℕ → ℕ → List (Bucket F) → Type 0
  IsTimeline recv lost bs =
      IsAscending 0 (times bs)
      × All (IsConsistent fl) bs
      × (sum_recv bs ≡ recv)
      × (sum_lost bs ≡ lost)

  module _ (f : Bucket F → Bucket F) (same : (b : Bucket F) → IsSameSide (f b) b) where
    consistent : (b : Bucket F) → IsConsistent fl b → IsConsistent fl (f b)
    consistent b h = rw ((same b).1, (same b).2, (same b).3) h

    at_bucket_lem :
        (idx lo recv lost : ℕ) (bs : List (Bucket F))
        → IsAscending lo (times bs)
          × All (IsConsistent fl) bs
          × (sum_recv bs ≡ recv)
          × (sum_lost bs ≡ lost)
        → IsAscending lo (times (at_bucket fl idx f bs))
          × All (IsConsistent fl) (at_bucket fl idx f bs)
          × (sum_recv (at_bucket fl idx f bs) ≡ recv)
          × (sum_lost (at_bucket fl idx f bs) ≡ lost)
    unfolding at_bucket
    at_bucket_lem idx lo recv lost [] h = h
    at_bucket_lem idx lo recv lost (b ∷ bs) ((a, up), (c, cs), r, l) =
        elim (Bool-cases (b.t == idx)) [
          | inl e ↦ rw (e, (same b).0, (same b).1, (same b).2, (same b).3) ((a, up), (c, cs), r, l)
          | inr e ↦ rw e (
              let (up', cs', r', l') =
                at_bucket_lem idx (suc b.t) (sum_recv bs) (sum_lost bs) bs (up, cs, refl, refl) in
              ((a, up'), (c, cs'), omega arith, omega arith))
        ]

    map_lem :
        (lo recv lost : ℕ) (bs : List (Bucket F))
        → IsAscending lo (times bs)
          × All (IsConsistent fl) bs
          × (sum_recv bs ≡ recv)
          × (sum_lost bs ≡ lost)
        → IsAscending lo (times (map f bs))
          × All (IsConsistent fl) (map f bs)
          × (sum_recv (map f bs) ≡ recv)
          × (sum_lost (map f bs) ≡ lost)
    map_lem lo recv lost [] h = h
    map_lem lo recv lost (b ∷ bs) ((a, up), (c, cs), r, l) =
        let (up', cs', r', l') =
          map_lem (suc b.t) (sum_recv bs) (sum_lost bs) bs (up, cs, refl, refl) in
        rw ((same b).0, (same b).1, (same b).2, (same b).3)
          ((a, up'), (c, cs'), omega arith, omega arith)

    pub write-IsTimeline :
        (idx recv lost : ℕ) (bs : List (Bucket F))
        → IsTimeline recv lost bs
        → IsTimeline recv lost (at_bucket fl idx f (bucket_at fl idx bs))
    write-IsTimeline idx recv lost bs (up, cs, r, l) =
        let (r', l') = bucket_at_sums fl idx bs up in
        at_bucket_lem idx 0 recv lost (bucket_at fl idx bs)
          (bucket_at-IsAscending fl idx bs up, bucket_at-All fl idx bs up cs, r' ∙ r, l' ∙ l)

    pub map-IsTimeline :
        (recv lost : ℕ) (bs : List (Bucket F))
        → IsTimeline recv lost bs
        → IsTimeline recv lost (map f bs)
    map-IsTimeline recv lost bs h = map_lem 0 recv lost bs h
