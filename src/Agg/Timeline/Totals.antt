-- ===== src/Agg/Timeline/Totals.antt =====
-- internal/agg/aggregator.go: what the timeline's counters add up to, and its percentages.
use dropline.Prelude.{
  ℕ, ◌+◌, ◌-◌, ◌^◌, ◌<◌, List, [], ◌∷◌, true, false, ◌==◌, contains, ◌≡◌, inl, inr, refl, arith,
  Bool-cases,
}
use dropline.Prelude.Counters.{is_pos64}
use dropline.Prelude.Floats.{Floats}
use dropline.Agg.State.{Bucket}
use dropline.Agg.Timeline.{
  is_neg64, empty_bucket, place, bucket_at, at_bucket, refresh, take_loss, unwind, unwind_loss,
  add_recv, add_lost, record_second,
}
use dropline.Agg.Timeline.Order.{
  IsAscending, times, bucket_at-place, bucket_at-contains, times-add_recv,
}

module _ {F : Type 0} where
  abbrev pub sum_recv : List (Bucket F) → ℕ
  sum_recv [] = 0
  sum_recv (b ∷ bs) = b.stream_recv + sum_recv bs

  abbrev pub sum_lost : List (Bucket F) → ℕ
  sum_lost [] = 0
  sum_lost (b ∷ bs) = b.stream_lost + sum_lost bs

module _ {F : Type 0} (fl : Floats F) where
  place_sums :
      (idx : ℕ) (bs : List (Bucket F))
      → (sum_recv (place fl idx bs) ≡ sum_recv bs) × (sum_lost (place fl idx bs) ≡ sum_lost bs)
  unfolding place empty_bucket
  place_sums idx [] = (refl, refl)
  place_sums idx (b ∷ bs) = ground (arith, place_sums idx bs)

  pub bucket_at_sums :
      (idx : ℕ) (bs : List (Bucket F))
      → IsAscending 0 (times bs)
      → (sum_recv (bucket_at fl idx bs) ≡ sum_recv bs)
        × (sum_lost (bucket_at fl idx bs) ≡ sum_lost bs)
  bucket_at_sums idx bs a = rw (bucket_at-place fl 0 idx bs a) (place_sums idx bs)

  add_recv_sums :
      (idx d : ℕ) (bs : List (Bucket F))
      → contains idx (times bs) ≡ true
      → sum_recv bs + d < 2 ^ 64
      → (sum_recv (at_bucket fl idx (add_recv fl d) bs) ≡ sum_recv bs + d)
        × (sum_lost (at_bucket fl idx (add_recv fl d) bs) ≡ sum_lost bs)
  unfolding at_bucket add_recv contains
  add_recv_sums idx d [] h g = ground arith
  add_recv_sums idx d (b ∷ bs) h g = elim (Bool-cases (b.t == idx)) [
    | inl e ↦ rw e (omega arith, refl)
    | inr e ↦ rw e (
        let (r, l) = add_recv_sums idx d bs (ground arith) (omega arith) in
        (omega arith, omega arith))
  ]

  add_lost_sums :
      (idx d : ℕ) (bs : List (Bucket F))
      → contains idx (times bs) ≡ true
      → sum_lost bs + d < 2 ^ 64
      → (sum_recv (at_bucket fl idx (add_lost fl d) bs) ≡ sum_recv bs)
        × (sum_lost (at_bucket fl idx (add_lost fl d) bs) ≡ sum_lost bs + d)
  unfolding at_bucket add_lost contains
  add_lost_sums idx d [] h g = ground arith
  add_lost_sums idx d (b ∷ bs) h g = elim (Bool-cases (b.t == idx)) [
    | inl e ↦ rw e (refl, omega arith)
    | inr e ↦ rw e (
        let (r, l) = add_lost_sums idx d bs (ground arith) (omega arith) in
        (omega arith, omega arith))
  ]

  refresh_sums :
      (idx : ℕ) (bs : List (Bucket F))
      → (sum_recv (at_bucket fl idx (refresh fl) bs) ≡ sum_recv bs)
        × (sum_lost (at_bucket fl idx (refresh fl) bs) ≡ sum_lost bs)
  unfolding at_bucket refresh
  refresh_sums idx [] = (refl, refl)
  refresh_sums idx (b ∷ bs) = ground (arith, refresh_sums idx bs)

  take_loss_lem :
      (n : ℕ) (b : Bucket F)
      → b.stream_lost < 2 ^ 63
      → ((take_loss fl n b).0 ≡ n - b.stream_lost)
        × ((take_loss fl n b).1.stream_lost ≡ b.stream_lost - n)
        × ((take_loss fl n b).1.stream_recv ≡ b.stream_recv)
  unfolding take_loss refresh
  take_loss_lem n b h = ground arith

  -- The unwinding takes n off the total of the losses, or all of it when there is less, and what
  -- it could not take is left.
  pub unwind_sums :
      (n : ℕ) (bs : List (Bucket F))
      → sum_lost bs < 2 ^ 63
      → ((unwind fl n bs).0 ≡ n - sum_lost bs)
        × (sum_lost (unwind fl n bs).1 ≡ sum_lost bs - n)
        × (sum_recv (unwind fl n bs).1 ≡ sum_recv bs)
  unfolding unwind
  unwind_sums n [] h = (omega arith, omega arith, refl)
  unwind_sums n (b ∷ bs) h =
      let (l, s, r) = unwind_sums n bs (omega arith) in
      let (l', s', r') = take_loss_lem (unwind fl n bs).0 b (omega arith) in
      (omega arith, omega arith, omega arith)

  unwind_loss_sums :
      (n : ℕ) (bs : List (Bucket F))
      → n < 2 ^ 63
      → sum_lost bs < 2 ^ 63
      → (sum_lost (unwind_loss fl n bs) ≡ sum_lost bs - n)
        × (sum_recv (unwind_loss fl n bs) ≡ sum_recv bs)
  unfolding unwind_loss
  unwind_loss_sums n bs k h =
      let (_, l, r) = unwind_sums n bs h in
      elim (Bool-cases (is_pos64 n)) [
        | inl e ↦ rw e (l, r)
        | inr e ↦ rw e (let none' : n ≡ 0 = ground arith in omega arith, refl)
      ]

  counted_sums :
      (idx d_recv : ℕ) (bs : List (Bucket F))
      → IsAscending 0 (times bs)
      → sum_recv bs + d_recv < 2 ^ 63
      → (sum_recv (at_bucket fl idx (add_recv fl d_recv) (bucket_at fl idx bs))
          ≡ sum_recv bs + d_recv)
        × (sum_lost (at_bucket fl idx (add_recv fl d_recv) (bucket_at fl idx bs)) ≡ sum_lost bs)
  counted_sums idx d_recv bs a h =
      let (r, l) = bucket_at_sums idx bs a in
      let (r', l') =
        add_recv_sums idx d_recv (bucket_at fl idx bs) (bucket_at-contains fl idx bs a)
          (omega arith) in
      (omega arith, omega arith)

  -- An ingest adds the delta of the receptions to the total, and adds the delta of the losses or
  -- takes it off.
  pub record_second_gain :
      (idx d_recv d_lost : ℕ) (bs : List (Bucket F))
      → IsAscending 0 (times bs)
      → sum_recv bs + d_recv < 2 ^ 63
      → sum_lost bs + d_lost < 2 ^ 63
      → (sum_recv (record_second fl idx d_recv d_lost bs) ≡ sum_recv bs + d_recv)
        × (sum_lost (record_second fl idx d_recv d_lost bs) ≡ sum_lost bs + d_lost)
  unfolding record_second
  record_second_gain idx d_recv d_lost bs a h g =
      let counted = at_bucket fl idx (add_recv fl d_recv) (bucket_at fl idx bs) in
      let up : is_neg64 d_lost ≡ false = ground arith in
      let present : contains idx (times counted) ≡ true =
        rw (times-add_recv fl idx d_recv (bucket_at fl idx bs)) (bucket_at-contains fl idx bs a) in
      let (r, l) = counted_sums idx d_recv bs a h in
      let (r', l') = add_lost_sums idx d_lost counted present (omega arith) in
      let (r'', l'') = refresh_sums idx (at_bucket fl idx (add_lost fl d_lost) counted) in
      rw up (omega arith, omega arith)

  pub record_second_loss :
      (idx d_recv d_lost : ℕ) (bs : List (Bucket F))
      → IsAscending 0 (times bs)
      → sum_recv bs + d_recv < 2 ^ 63
      → sum_lost bs < 2 ^ 63
      → 2 ^ 63 < d_lost
      → (sum_recv (record_second fl idx d_recv d_lost bs) ≡ sum_recv bs + d_recv)
        × (sum_lost (record_second fl idx d_recv d_lost bs) ≡ sum_lost bs - (2 ^ 64 - d_lost))
  unfolding record_second
  record_second_loss idx d_recv d_lost bs a h g n =
      let counted = at_bucket fl idx (add_recv fl d_recv) (bucket_at fl idx bs) in
      let down : is_neg64 d_lost ≡ true = ground arith in
      let (r, l) = counted_sums idx d_recv bs a h in
      let (l', r') = unwind_loss_sums (2 ^ 64 - d_lost) counted (omega arith) (omega arith) in
      let (r'', l'') = refresh_sums idx (unwind_loss fl (2 ^ 64 - d_lost) counted) in
      rw down (omega arith, omega arith)
