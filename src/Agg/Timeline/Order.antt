-- ===== src/Agg/Timeline/Order.antt =====
-- internal/agg/aggregator.go: the order of the timeline's buckets.
use dropline.Prelude.{
  ℕ, suc, ◌≤◌, ◌<◌, List, [], ◌∷◌, ◌++◌, true, none, some, ltb, ◌==◌, contains, ◌≡◌, inl, inr, refl,
  sym, ap, ◌∙◌, arith, Bool-cases, Option-cases, ltb→lt,
}
use dropline.Prelude.Counters.{is_pos64}
use dropline.Prelude.Floats.{Floats}
use dropline.Agg.State.{Bucket}
use dropline.Agg.Timeline.{
  is_neg64, empty_bucket, last_t, place, bucket_at, at_bucket, refresh, take_loss, unwind,
  unwind_loss, add_recv, add_lost, record_second,
}

-- Strictly ascending, from lo on.
abbrev pub IsAscending : ℕ → List ℕ → Type 0
IsAscending lo [] = Unit {0}
IsAscending lo (t ∷ ts) = (lo ≤ t) × IsAscending (suc t) ts

IsAscending-weaken : (lo lo' : ℕ) (ts : List ℕ) → lo' ≤ lo → IsAscending lo ts → IsAscending lo' ts
IsAscending-weaken lo lo' [] h a = tt
IsAscending-weaken lo lo' (t ∷ ts) h a = (omega (arith, a.0), a.1)

module _ {F : Type 0} where
  abbrev pub times : List (Bucket F) → List ℕ
  times [] = []
  times (b ∷ bs) = b.t ∷ times bs

module _ {F : Type 0} (fl : Floats F) where
  place-IsAscending :
      (lo idx : ℕ) (bs : List (Bucket F))
      → lo ≤ idx
      → IsAscending lo (times bs)
      → IsAscending lo (times (place fl idx bs))
  unfolding place empty_bucket
  place-IsAscending lo idx [] h a = (h, tt)
  place-IsAscending lo idx (b ∷ bs) h a = elim (Bool-cases (ltb b.t idx)) [
    | inl e ↦ rw e (a.0, place-IsAscending (suc b.t) idx bs (ground arith) a.1)
    | inr e ↦ elim (Bool-cases (b.t == idx)) [
      | inl g ↦ rw (e, g) a
      | inr g ↦ rw (e, g) (h, (ground arith, a.1))
    ]
  ]

  place-contains : (idx : ℕ) (bs : List (Bucket F)) → contains idx (times (place fl idx bs)) ≡ true
  unfolding place empty_bucket contains
  place-contains idx [] = ground arith
  place-contains idx (b ∷ bs) = ground (arith, place-contains idx bs)

  place_lt :
      (idx : ℕ) (b : Bucket F) (bs : List (Bucket F))
      → b.t < idx
      → place fl idx (b ∷ bs) ≡ b ∷ place fl idx bs
  unfolding place
  place_lt idx b bs h = ground arith

  last_above :
      (lo t : ℕ) (bs : List (Bucket F)) → IsAscending lo (times bs) → last_t fl bs ≡ some t → lo ≤ t
  unfolding last_t
  last_above lo t [] a e = ground arith
  last_above lo t (b ∷ []) a e = ground arith
  last_above lo t (b ∷ c ∷ bs) a e = omega (arith, last_above (suc b.t) t (c ∷ bs) a.1 e, a.0)

  -- The fast paths do what the search would.
  last_lt :
      (lo idx t : ℕ) (bs : List (Bucket F))
      → IsAscending lo (times bs)
      → last_t fl bs ≡ some t
      → t < idx
      → place fl idx bs ≡ bs ++ (empty_bucket fl idx ∷ [])
  unfolding last_t
  last_lt lo idx t [] a e h = unfold place in refl
  last_lt lo idx t (b ∷ []) a e h = unfold place in ground arith
  last_lt lo idx t (b ∷ c ∷ bs) a e h =
      place_lt idx b (c ∷ bs) (omega (arith, last_above (suc b.t) t (c ∷ bs) a.1 e, h))
      ∙ ap (◌∷◌ b) (last_lt (suc b.t) idx t (c ∷ bs) a.1 e h)

  last_eq :
      (lo idx : ℕ) (bs : List (Bucket F))
      → IsAscending lo (times bs)
      → last_t fl bs ≡ some idx
      → place fl idx bs ≡ bs
  unfolding last_t
  last_eq lo idx [] a e = ground arith
  last_eq lo idx (b ∷ []) a e = unfold place in ground arith
  last_eq lo idx (b ∷ c ∷ bs) a e =
      place_lt idx b (c ∷ bs) (omega (arith, last_above (suc b.t) idx (c ∷ bs) a.1 e))
      ∙ ap (◌∷◌ b) (last_eq (suc b.t) idx (c ∷ bs) a.1 e)

  last_none : (idx : ℕ) (bs : List (Bucket F)) → last_t fl bs ≡ none → bs ≡ []
  unfolding last_t
  last_none idx [] e = refl
  last_none idx (b ∷ []) e = ground arith
  last_none idx (b ∷ c ∷ bs) e = let impossible = last_none idx (c ∷ bs) e in ground arith

  -- On a timeline in ascending order, `bucketAtLocked` with its fast paths at the tail gives the
  -- timeline that the search and insertion alone would give.
  pub bucket_at-place :
      (lo idx : ℕ) (bs : List (Bucket F))
      → IsAscending lo (times bs)
      → bucket_at fl idx bs ≡ place fl idx bs
  unfolding bucket_at
  bucket_at-place lo idx bs a = elim (Option-cases (last_t fl bs)) [
    | inl e ↦
        rw (e, bucket_at) (let empty = last_none idx bs e in rw empty (sym (unfold place in refl)))
    | inr (t, e) ↦
        rw (e, bucket_at)
          (elim (Bool-cases (ltb t idx)) [
            | inl h ↦ rw h (sym (last_lt lo idx t bs a e (ltb→lt t idx h)))
            | inr h ↦ elim (Bool-cases (t == idx)) [
              | inl g ↦ rw (h, g) (sym (last_eq lo idx bs a (e ∙ ap some (ground arith))))
              | inr g ↦ rw (h, g) refl
            ]
          ])
  ]

  pub bucket_at-IsAscending :
      (idx : ℕ) (bs : List (Bucket F))
      → IsAscending 0 (times bs)
      → IsAscending 0 (times (bucket_at fl idx bs))
  bucket_at-IsAscending idx bs a =
      rw (bucket_at-place 0 idx bs a) (place-IsAscending 0 idx bs (omega arith) a)

  pub bucket_at-contains :
      (idx : ℕ) (bs : List (Bucket F))
      → IsAscending 0 (times bs)
      → contains idx (times (bucket_at fl idx bs)) ≡ true
  bucket_at-contains idx bs a = rw (bucket_at-place 0 idx bs a) (place-contains idx bs)

  pub times-at_bucket :
      (idx : ℕ) (f : Bucket F → Bucket F)
      → ((b : Bucket F) → (f b).t ≡ b.t)
      → (bs : List (Bucket F)) → times (at_bucket fl idx f bs) ≡ times bs
  unfolding at_bucket
  times-at_bucket idx f h [] = refl
  times-at_bucket idx f h (b ∷ bs) = elim (Bool-cases (b.t == idx)) [
    | inl e ↦ rw (e, h b) refl
    | inr e ↦ rw (e, times-at_bucket idx f h bs) refl
  ]

  take_loss_t : (n : ℕ) (b : Bucket F) → (take_loss fl n b).1.t ≡ b.t
  unfolding take_loss refresh
  take_loss_t n b = ground arith

  times-unwind : (n : ℕ) (bs : List (Bucket F)) → times (unwind fl n bs).1 ≡ times bs
  unfolding unwind
  times-unwind n [] = refl
  times-unwind n (b ∷ bs) = rw (take_loss_t (unwind fl n bs).0 b, times-unwind n bs) refl

  pub times-unwind_loss : (n : ℕ) (bs : List (Bucket F)) → times (unwind_loss fl n bs) ≡ times bs
  unfolding unwind_loss
  times-unwind_loss n bs = elim (Bool-cases (is_pos64 n)) [
    | inl e ↦ rw e (times-unwind n bs)
    | inr e ↦ rw e refl
  ]

  pub times-refresh :
      (idx : ℕ) (bs : List (Bucket F)) → times (at_bucket fl idx (refresh fl) bs) ≡ times bs
  times-refresh idx bs = times-at_bucket idx (refresh fl) (λ b. unfold refresh in refl) bs

  pub times-add_recv :
      (idx d : ℕ) (bs : List (Bucket F)) → times (at_bucket fl idx (add_recv fl d) bs) ≡ times bs
  times-add_recv idx d bs = times-at_bucket idx (add_recv fl d) (λ b. unfold add_recv in refl) bs

  pub times-add_lost :
      (idx d : ℕ) (bs : List (Bucket F)) → times (at_bucket fl idx (add_lost fl d) bs) ≡ times bs
  times-add_lost idx d bs = times-at_bucket idx (add_lost fl d) (λ b. unfold add_lost in refl) bs

  -- The seconds of the timeline after an ingest are those of the search.
  pub times-record_second :
      (idx d_recv d_lost : ℕ) (bs : List (Bucket F))
      → times (record_second fl idx d_recv d_lost bs) ≡ times (bucket_at fl idx bs)
  unfolding record_second
  times-record_second idx d_recv d_lost bs = elim (Bool-cases (is_neg64 d_lost)) [
    | inl e ↦ rw (e, times-refresh, times-unwind_loss, times-add_recv) refl
    | inr e ↦ rw (e, times-refresh, times-add_lost, times-add_recv) refl
  ]
