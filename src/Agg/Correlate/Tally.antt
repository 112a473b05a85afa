-- ===== src/Agg/Correlate/Tally.antt =====
-- internal/agg/correlate.go: the shared map of scores counts what each hop's own samples show.
use native.Mathlib.Nat.{zero-add, add-zero}
use dropline.Prelude.{
  ℕ, ◌+◌, str_eq, List, [], ◌∷◌, ◌++◌, Bool, true, false, ◌&&◌, none, some, All, if◌then◌else◌, ◌≡◌,
  refl, sym, ap, ◌∙◌, arith, Bool-cases, Option-cases, inl, inr,
}
use dropline.Prelude.Int.{ℤ, eqb_ℤ, eq_of_parts}
use dropline.Prelude.Floats.{Floats}
use dropline.Agg.State.{Bucket, HopView}
use dropline.Agg.Correlate.{
  HopScore, Scores, score_of, set_score, fresh_score, init_scores, is_rtt_hit, is_loss_hit, hit,
  tally_hops, tally,
}

eqb→eq : (a b : ℤ) → eqb_ℤ a b ≡ true → a ≡ b
eqb→eq a b h = ground (arith, eq_of_parts a b)

eqb_refl : (a : ℤ) → eqb_ℤ a a ≡ true
eqb_refl a = ground arith

more : (c : Bool) (n a : ℕ) → (if c then n + 1 else n) + a ≡ n + ((if c then 1 else 0) + a)
more c n a = ground arith

module _ {F : Type 0} where
  score_of-set_score :
      (t j : ℤ) (sc : HopScore F) (m : Scores F)
      → score_of j (set_score t sc m) ≡ (if eqb_ℤ t j then some sc else score_of j m)
  unfolding score_of set_score
  score_of-set_score t j sc [] = refl
  score_of-set_score t j sc ((u, old) ∷ m) = ground (arith, score_of-set_score t j sc m)

  -- A score with more hits.
  abbrev pub with_hits : HopScore F → ℕ → ℕ → HopScore F
  with_hits sc rtt loss = record sc {
    rtt_hits = sc.rtt_hits + rtt;
    loss_hits = sc.loss_hits + loss;
  }

module _ {F : Type 0} (fl : Floats F) where
  -- The samples of a TTL that lie above the hop's baseline.
  abbrev pub rtt_count : ℤ → HopScore F → List (HopView F) → ℕ
  rtt_count t sc [] = 0
  rtt_count t sc (h ∷ hs) =
      (if eqb_ℤ h.ttl t && is_rtt_hit fl sc h then 1 else 0) + rtt_count t sc hs

  -- The samples of a TTL with a loss that counts.
  abbrev pub loss_count : ℤ → HopScore F → List (HopView F) → ℕ
  loss_count t sc [] = 0
  loss_count t sc (h ∷ hs) =
      (if eqb_ℤ h.ttl t && is_loss_hit fl sc h then 1 else 0) + loss_count t sc hs

  -- Further hits change neither the baseline nor the suppression.
  rtt_count-hit :
      (t : ℤ) (sc : HopScore F) (g : HopView F) (hs : List (HopView F))
      → rtt_count t (hit fl sc g) hs ≡ rtt_count t sc hs
  unfolding hit is_rtt_hit
  rtt_count-hit t sc g [] = refl
  rtt_count-hit t sc g (h ∷ hs) = rw (rtt_count-hit t sc g hs) refl

  loss_count-hit :
      (t : ℤ) (sc : HopScore F) (g : HopView F) (hs : List (HopView F))
      → loss_count t (hit fl sc g) hs ≡ loss_count t sc hs
  unfolding hit is_loss_hit
  loss_count-hit t sc g [] = refl
  loss_count-hit t sc g (h ∷ hs) = rw (loss_count-hit t sc g hs) refl

  with_hits-hit :
      (sc : HopScore F) (h : HopView F) (a b : ℕ)
      → with_hits (hit fl sc h) a b
        ≡ with_hits sc
            ((if is_rtt_hit fl sc h then 1 else 0) + a)
            ((if is_loss_hit fl sc h then 1 else 0) + b)
  unfolding hit
  with_hits-hit sc h a b =
      rw (more (is_rtt_hit fl sc h) sc.rtt_hits a, more (is_loss_hit fl sc h) sc.loss_hits b) refl

  -- One sample.
  abbrev step : Scores F → HopView F → Scores F
  step m h = elim (score_of h.ttl m) [ none ↦ m | some sc ↦ set_score h.ttl (hit fl sc h) m ]

  step_other :
      (t : ℤ) (m : Scores F) (h : HopView F)
      → eqb_ℤ h.ttl t ≡ false
      → score_of t (step m h) ≡ score_of t m
  step_other t m h e = elim (Option-cases (score_of h.ttl m)) [
    | inl n ↦ rw (n, step) refl
    | inr (sc, n) ↦ rw (n, step) (rw (score_of-set_score h.ttl t (hit fl sc h) m, e) refl)
  ]

  step_own :
      (t : ℤ) (m : Scores F) (h : HopView F) (sc : HopScore F)
      → eqb_ℤ h.ttl t ≡ true
      → score_of t m ≡ some sc
      → score_of t (step m h) ≡ some (hit fl sc h)
  step_own t m h sc e n =
      let found : score_of h.ttl m ≡ some sc =
        ap (λ (u : ℤ). score_of u m) (eqb→eq h.ttl t e) ∙ n in
      rw (found, step) (rw (score_of-set_score h.ttl t (hit fl sc h) m, e) refl)

  -- The inner loop, for a TTL that has a score.
  tally_hops_lem :
      (t : ℤ) (sc : HopScore F) (m : Scores F) (hs : List (HopView F))
      → score_of t m ≡ some sc
      → score_of t (tally_hops fl m hs)
        ≡ some (with_hits sc (rtt_count t sc hs) (loss_count t sc hs))
  unfolding tally_hops
  tally_hops_lem t sc m [] e = e ∙ rw (add-zero sc.rtt_hits, add-zero sc.loss_hits) refl
  tally_hops_lem t sc m (h ∷ hs) e = elim (Bool-cases (eqb_ℤ h.ttl t)) [
    | inl own ↦
        tally_hops_lem t (hit fl sc h) (step m h) hs (step_own t m h sc own e)
        ∙ ap (λ (x : HopScore F). some x)
            (rw
              (
                rtt_count-hit t sc h hs,
                loss_count-hit t sc h hs,
                with_hits-hit sc h (rtt_count t sc hs) (loss_count t sc hs),
                own,
              )
              refl)
    | inr other ↦
        tally_hops_lem t sc (step m h) hs (step_other t m h other ∙ e)
        ∙ rw (other, zero-add (rtt_count t sc hs), zero-add (loss_count t sc hs)) refl
  ]

  -- All samples of the loss events, one event after the other.
  abbrev pub samples : (Bucket F → List (HopView F)) → List (Bucket F) → List (HopView F)
  samples bucket_hops [] = []
  samples bucket_hops (b ∷ bs) = bucket_hops b ++ samples bucket_hops bs

  tally_hops-append :
      (m : Scores F) (gs hs : List (HopView F))
      → tally_hops fl m (gs ++ hs) ≡ tally_hops fl (tally_hops fl m gs) hs
  unfolding tally_hops
  tally_hops-append m [] hs = refl
  tally_hops-append m (g ∷ gs) hs = tally_hops-append (step m g) gs hs

  tally-samples :
      (f : Bucket F → List (HopView F)) (m : Scores F) (bs : List (Bucket F))
      → tally fl f m bs ≡ tally_hops fl m (samples f bs)
  unfolding tally
  tally-samples f m [] = unfold tally_hops in refl
  tally-samples f m (b ∷ bs) =
      tally-samples f (tally_hops fl m (f b)) bs ∙ sym (tally_hops-append m (f b) (samples f bs))

  init_other :
      (t : ℤ) (m : Scores F) (hs : List (HopView F))
      → All (λ g. eqb_ℤ g.ttl t ≡ false) hs
      → score_of t (init_scores fl m hs) ≡ score_of t m
  unfolding init_scores
  init_other t m [] o = refl
  init_other t m (h ∷ hs) (o, os) = elim (Bool-cases (str_eq h.ip "")) [
    | inl silent ↦ rw silent (init_other t m hs os)
    | inr heard ↦ rw heard (
        init_other t (set_score h.ttl (fresh_score fl h hs) m) hs os
        ∙ score_of-set_score h.ttl t (fresh_score fl h hs) m
        ∙ rw o refl)
  ]

  init_own :
      (pre : List (HopView F)) (m : Scores F) (h : HopView F) (ds : List (HopView F))
      → str_eq h.ip "" ≡ false
      → All (λ g. eqb_ℤ g.ttl h.ttl ≡ false) ds
      → score_of h.ttl (init_scores fl m (pre ++ (h ∷ ds))) ≡ some (fresh_score fl h ds)
  unfolding init_scores
  init_own [] m h ds heard others =
      rw (heard, init_scores)
        (init_other h.ttl (set_score h.ttl (fresh_score fl h ds) m) ds others
          ∙ score_of-set_score h.ttl h.ttl (fresh_score fl h ds) m
          ∙ rw (eqb_refl h.ttl) refl)
  init_own (g ∷ pre) m h ds heard others = init_own pre _ h ds heard others

  -- What the shared map of scores holds, after all loss events, for a responsive hop behind which
  -- no hop of the table has its TTL: its baseline, whether its losses count, and as many hits as
  -- there are samples of its TTL in those events that lie above the baseline, or show a loss that
  -- counts. The samples of other hops have no part in it.
  pub tally_reference :
      (bucket_hops : Bucket F → List (HopView F)) (events : List (Bucket F))
      (pre : List (HopView F)) (h : HopView F) (ds : List (HopView F))
      → str_eq h.ip "" ≡ false
      → All (λ g. eqb_ℤ g.ttl h.ttl ≡ false) ds
      → score_of h.ttl (tally fl bucket_hops (init_scores fl [] (pre ++ (h ∷ ds))) events)
        ≡ some (
            with_hits
              (fresh_score fl h ds)
              (rtt_count h.ttl (fresh_score fl h ds) (samples bucket_hops events))
              (loss_count h.ttl (fresh_score fl h ds) (samples bucket_hops events)))
  tally_reference bucket_hops events pre h ds heard others =
      rw (tally-samples bucket_hops (init_scores fl [] (pre ++ (h ∷ ds))) events) (
        tally_hops_lem h.ttl (fresh_score fl h ds) _ (samples bucket_hops events)
          (init_own pre [] h ds heard others))
