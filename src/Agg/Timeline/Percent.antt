-- ===== src/Agg/Timeline/Percent.antt =====
-- internal/agg/aggregator.go: every bucket's percentage is the one of its own counters.
use dropline.Prelude.{
  ℕ, suc, ◌-◌, ◌^◌, ◌<◌, List, [], ◌∷◌, not, ltb, leb, ◌==◌, All, ◌≡◌, ◌⊎◌, inl, inr, refl, ◌∙◌,
  arith, Bool-cases, ◌||◌,
}
use dropline.Prelude.Floats.{Floats}
use dropline.Prelude.Counters.{is_pos64}
use dropline.Agg.State.{Bucket}
use dropline.Agg.Timeline.{
  is_neg64, empty_bucket, loss_pct, place, bucket_at, at_bucket, refresh, take_loss, unwind,
  unwind_loss, add_recv, add_lost, record_second,
}
use dropline.Agg.Timeline.Order.{
  IsAscending, times, bucket_at-place, bucket_at-IsAscending, times-add_recv, times-add_lost,
  times-unwind_loss,
}

module _ {F : Type 0} (fl : Floats F) where
  abbrev pub IsConsistent : Bucket F → Type 0
  IsConsistent b = b.stream_loss_pct ≡ loss_pct fl b.stream_recv b.stream_lost

  -- But for the bucket that is being written.
  abbrev IsConsistentBut : ℕ → Bucket F → Type 0
  IsConsistentBut idx b = (b.t ≡ idx) ⊎ IsConsistent b

  empty-IsConsistent : (idx : ℕ) → IsConsistent (empty_bucket fl idx)
  unfolding empty_bucket loss_pct
  empty-IsConsistent idx = refl

  place-All :
      (idx : ℕ) (bs : List (Bucket F)) → All IsConsistent bs → All IsConsistent (place fl idx bs)
  unfolding place
  place-All idx [] h = (empty-IsConsistent idx, tt)
  place-All idx (b ∷ bs) h = elim (Bool-cases (ltb b.t idx)) [
    | inl e ↦ rw e (h.0, place-All idx bs h.1)
    | inr e ↦ elim (Bool-cases (b.t == idx)) [
      | inl g ↦ rw (e, g) h
      | inr g ↦ rw (e, g) (empty-IsConsistent idx, h)
    ]
  ]

  pub bucket_at-All :
      (idx : ℕ) (bs : List (Bucket F))
      → IsAscending 0 (times bs)
      → All IsConsistent bs
      → All IsConsistent (bucket_at fl idx bs)
  bucket_at-All idx bs a h = rw (bucket_at-place fl 0 idx bs a) (place-All idx bs h)

  spare : (idx : ℕ) (bs : List (Bucket F)) → All IsConsistent bs → All (IsConsistentBut idx) bs
  spare idx [] h = tt
  spare idx (b ∷ bs) h = (inr h.0, spare idx bs h.1)

  at_bucket-All :
      (idx : ℕ) (f : Bucket F → Bucket F)
      → ((b : Bucket F) → (f b).t ≡ b.t)
      → (bs : List (Bucket F)) → All (IsConsistentBut idx) bs
      → All (IsConsistentBut idx) (at_bucket fl idx f bs)
  unfolding at_bucket
  at_bucket-All idx f t [] h = tt
  at_bucket-All idx f t (b ∷ bs) h = elim (Bool-cases (b.t == idx)) [
    | inl e ↦ let same : b.t ≡ idx = ground arith in rw e (inl (t b ∙ same), h.1)
    | inr e ↦ rw e (h.0, at_bucket-All idx f t bs h.1)
  ]

  refresh-IsConsistent : (b : Bucket F) → IsConsistent (refresh fl b)
  unfolding refresh
  refresh-IsConsistent b = refl

  take_loss_lem :
      (idx n : ℕ) (b : Bucket F) → IsConsistentBut idx b → IsConsistentBut idx (take_loss fl n b).1
  unfolding take_loss
  take_loss_lem idx n b h = elim (Bool-cases (n == 0 || not (is_pos64 b.stream_lost))) [
    | inl e ↦ rw e h
    | inr e ↦ elim (Bool-cases (leb n b.stream_lost)) [
      | inl g ↦ rw (e, g) (inr (refresh-IsConsistent _))
      | inr g ↦ rw (e, g) (inr (refresh-IsConsistent _))
    ]
  ]

  unwind-All :
      (idx n : ℕ) (bs : List (Bucket F))
      → All (IsConsistentBut idx) bs
      → All (IsConsistentBut idx) (unwind fl n bs).1
  unfolding unwind
  unwind-All idx n [] h = tt
  unwind-All idx n (b ∷ bs) h =
      (take_loss_lem idx (unwind fl n bs).0 b h.0, unwind-All idx n bs h.1)

  unwind_loss-All :
      (idx n : ℕ) (bs : List (Bucket F))
      → All (IsConsistentBut idx) bs
      → All (IsConsistentBut idx) (unwind_loss fl n bs)
  unfolding unwind_loss
  unwind_loss-All idx n bs h = elim (Bool-cases (is_pos64 n)) [
    | inl e ↦ rw e (unwind-All idx n bs h)
    | inr e ↦ rw e h
  ]

  above :
      (lo idx : ℕ) (bs : List (Bucket F))
      → idx < lo
      → IsAscending lo (times bs)
      → All (IsConsistentBut idx) bs
      → All IsConsistent bs
  above lo idx [] l a h = tt
  above lo idx (b ∷ bs) l a h = (
    elim h.0 [ inl e ↦ absurd (omega (arith, e, a.0)) | inr c ↦ c ],
    above (suc b.t) idx bs (omega (arith, a.0)) a.1 h.1,
  )

  refresh-All :
      (lo idx : ℕ) (bs : List (Bucket F))
      → IsAscending lo (times bs)
      → All (IsConsistentBut idx) bs
      → All IsConsistent (at_bucket fl idx (refresh fl) bs)
  unfolding at_bucket
  refresh-All lo idx [] a h = tt
  refresh-All lo idx (b ∷ bs) a h = elim (Bool-cases (b.t == idx)) [
    | inl e ↦ rw e (refresh-IsConsistent b, above (suc b.t) idx bs (ground arith) a.1 h.1)
    | inr e ↦ rw e (
      elim h.0 [ inl g ↦ absurd (ground arith) | inr c ↦ c ],
      refresh-All (suc b.t) idx bs a.1 h.1,
    )
  ]

  pub record_second-All :
      (idx d_recv d_lost : ℕ) (bs : List (Bucket F))
      → IsAscending 0 (times bs)
      → All IsConsistent bs
      → All IsConsistent (record_second fl idx d_recv d_lost bs)
  unfolding record_second
  record_second-All idx d_recv d_lost bs a h =
      let spared =
        at_bucket-All idx (add_recv fl d_recv) (λ b. unfold add_recv in refl) (bucket_at fl idx bs)
          (spare idx (bucket_at fl idx bs) (bucket_at-All idx bs a h)) in
      let order : IsAscending 0
          (times (at_bucket fl idx (add_recv fl d_recv) (bucket_at fl idx bs))) =
        rw (times-add_recv fl idx d_recv (bucket_at fl idx bs))
          (bucket_at-IsAscending fl idx bs a) in
      elim (Bool-cases (is_neg64 d_lost)) [
        | inl e ↦ rw e (
            refresh-All 0 idx _ (rw (times-unwind_loss fl (2 ^ 64 - d_lost) _) order)
              (unwind_loss-All idx (2 ^ 64 - d_lost) _ spared))
        | inr e ↦ rw e (
            refresh-All 0 idx _ (rw (times-add_lost fl idx d_lost _) order)
              (at_bucket-All idx (add_lost fl d_lost) (λ b. unfold add_lost in refl) _ spared))
      ]
