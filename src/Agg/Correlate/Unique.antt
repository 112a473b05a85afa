-- ===== src/Agg/Correlate/Unique.antt =====
-- internal/agg/correlate.go: the correlator names a TTL once, if its hop table does.
use dropline.Prelude.{
  ℕ, String, List, [], ◌∷◌, All, length, Bool, false, ◌||◌, none, some, some_eq, ◌≡◌, refl, sym,
  subst, ◌∙◌, arith, Bool-cases, Option-cases, inl, inr,
}
use dropline.Prelude.Int.{ℤ, eqb_ℤ}
use dropline.Prelude.Floats.{Floats}
use dropline.Agg.State.{Bucket, HopView}
use dropline.Agg.Correlate.{
  SuspectHop, Scores, suspects_of, insert_suspect, rank, suspects_in, correlate_impl, percentile,
  losses, q95, threshold_of, loss_events, score_of, confidence_of, half,
}
use dropline.Agg.Correlate.Ranking.{IsSound, suspects_of-All, rank-All}
use dropline.Agg.Merge.{find_ttl}
use dropline.Agg.Merge.Sorted.{sort_by-UniqueTtl}
use dropline.Agg.Merge.Find.{UniqueTtl, find_past}

module _ {F : Type 0} where
  abbrev has_ttl : ℤ → List (HopView F) → Bool
  has_ttl t [] = false
  has_ttl t (h ∷ hs) = eqb_ℤ h.ttl t || has_ttl t hs

  -- A table with one row for a TTL.
  abbrev pub HasUniqueRows : List (HopView F) → Type 0
  HasUniqueRows [] = Unit {0}
  HasUniqueRows (h ∷ hs) = (has_ttl h.ttl hs ≡ false) × HasUniqueRows hs

module _ {F : Type 0} (fl : Floats F) where
  suspects_of-absent :
      (source : String) (events : ℕ) (m : Scores F) (t : ℤ) (hs : List (HopView F))
      → has_ttl t hs ≡ false
      → find_ttl t (suspects_of fl source events m hs) ≡ none
  unfolding suspects_of
  suspects_of-absent source events m t [] e = unfold find_ttl in refl
  suspects_of-absent source events m t (h ∷ hs) e =
      let here : eqb_ℤ h.ttl t ≡ false = ground arith in
      let ih = suspects_of-absent source events m t hs (ground arith) in
      elim (Option-cases (score_of h.ttl m)) [
        | inl k ↦ rw (k, suspects_of) ih
        | inr (sc, k) ↦ elim (Bool-cases (fl.lt (half fl) (confidence_of fl sc events))) [
          | inl g ↦ rw (k, suspects_of) (rw g (find_past t _ _ here ∙ ih))
          | inr g ↦ rw (k, suspects_of) (rw g ih)
        ]
      ]

  suspects_of-UniqueTtl :
      (source : String) (events : ℕ) (m : Scores F) (hs : List (HopView F))
      → HasUniqueRows hs
      → UniqueTtl (suspects_of fl source events m hs)
  unfolding suspects_of
  suspects_of-UniqueTtl source events m [] u = tt
  suspects_of-UniqueTtl source events m (h ∷ hs) (once, u) =
      let ih = suspects_of-UniqueTtl source events m hs u in
      let absent = suspects_of-absent source events m h.ttl hs once in
      elim (Option-cases (score_of h.ttl m)) [
        | inl k ↦ rw (k, suspects_of) ih
        | inr (sc, k) ↦ elim (Bool-cases (fl.lt (half fl) (confidence_of fl sc events))) [
          | inl g ↦ rw (k, suspects_of) (rw g (absent, ih))
          | inr g ↦ rw (k, suspects_of) (rw g ih)
        ]
      ]

  rank-UniqueTtl : (ss : List (SuspectHop F)) → UniqueTtl ss → UniqueTtl (rank fl ss)
  unfolding rank insert_suspect
  rank-UniqueTtl ss u = sort_by-UniqueTtl (λ r s. fl.lt s.confidence r.confidence) ss u

  suspects_in-UniqueTtl :
      (f : Bucket F → List (HopView F)) (source : String) (hs : List (HopView F))
      (events : List (Bucket F))
      → HasUniqueRows hs
      → UniqueTtl (suspects_in fl f source hs events)
        × All (IsSound fl source hs) (suspects_in fl f source hs events)
  unfolding suspects_in
  suspects_in-UniqueTtl f source hs [] u = (tt, tt)
  suspects_in-UniqueTtl f source hs (e ∷ es) u = (
    rank-UniqueTtl _ (suspects_of-UniqueTtl source (length (e ∷ es)) _ hs u),
    rank-All fl (IsSound fl source hs) _ (suspects_of-All fl source (length (e ∷ es)) _ hs),
  )

  pub correlate_impl-UniqueTtl :
      (f : Bucket F → List (HopView F)) (source : String) (buckets : List (Bucket F))
      (hs : List (HopView F)) (out : List (SuspectHop F))
      → HasUniqueRows hs
      → correlate_impl fl f source buckets hs ≡ some out
      → UniqueTtl out × All (IsSound fl source hs) out
  unfolding correlate_impl
  correlate_impl-UniqueTtl f source [] hs out u h = rw (sym (some_eq h)) (tt, tt)
  correlate_impl-UniqueTtl f source (b ∷ bs) [] out u h = rw (sym (some_eq h)) (tt, tt)
  correlate_impl-UniqueTtl f source (b ∷ bs) (h0 ∷ hs) out u h =
      elim (Option-cases (percentile fl (losses fl (b ∷ bs)) (q95 fl))) [
        | inl e ↦ absurd (cc)
        | inr (p, e) ↦
            let found =
              suspects_in-UniqueTtl f source (h0 ∷ hs) (loss_events fl (threshold_of fl p) (b ∷ bs))
                u in
            let same : suspects_in fl f source (h0 ∷ hs)
                  (loss_events fl (threshold_of fl p) (b ∷ bs))
                ≡ out =
              some_eq (cc) in
            subst (λ (o : List (SuspectHop F)). UniqueTtl o × All (IsSound fl source (h0 ∷ hs)) o)
              same found
      ]
