-- ===== src/Agg/Correlate.antt =====
-- internal/agg/correlate.go: the correlator. Evidence is a constructor for each format string, with
-- the numbers that are printed into it. `none` is a panic of an index out of range. The map of
-- scores is an association list; `a >= b` of floats is `not (lt a b)`, as no percentage is NaN.
pub mod Tally
pub mod Ranking
pub mod Unique
use dropline.Prelude.{
  ℕ, ◌+◌, ◌-◌, String, str_eq, List, [], ◌∷◌, map, length, Bool, true, false, not, ◌&&◌, Option,
  none, some, ltb, ◌==◌, get_elem?, if◌then◌else◌,
}
use dropline.Prelude.Int.{ℤ, pos, negsuc, eqb_ℤ}
use dropline.Prelude.Floats.{Floats}
use dropline.Agg.State.{Bucket, HopView}

pub data Evidence (F : Type 0) : Type 0 where
  -- "RTT spike >%.1fms in %d/%d stream-loss seconds"
  rtt_spike : F → ℕ → ℕ → Evidence F
  -- "hop loss >1%% in %d/%d stream-loss seconds"
  hop_loss : ℕ → ℕ → Evidence F
  -- "RTT/loss correlated in both ICMP and TCP probes"
  both_probes : Evidence F

pub record SuspectHop (F : Type 0) : Type 0 where
  pub ttl : ℤ
  pub confidence : F
  pub evidence : Evidence F
  pub source : String

pub record HopScore (F : Type 0) : Type 0 where
  pub rtt_hits : ℕ
  pub loss_hits : ℕ
  pub rtt_baseline : F
  pub suppress_loss : Bool

-- map[int]*hopScore
abbrev pub Scores : Type 0 → Type 0
Scores F = List (ℤ × HopScore F)

module _ {F : Type 0} where
  unfoldable pub score_of : ℤ → Scores F → Option (HopScore F)
  score_of t [] = none
  score_of t ((u, sc) ∷ m) = if eqb_ℤ u t then some sc else score_of t m

  -- m[t] = sc, and the write through the pointer that the map holds.
  unfoldable pub set_score : ℤ → HopScore F → Scores F → Scores F
  set_score t sc [] = (t, sc) ∷ []
  set_score t sc ((u, old) ∷ m) =
      let rest = set_score t sc m in if eqb_ℤ u t then (u, sc) ∷ m else (u, old) ∷ rest

module _ {F : Type 0} (fl : Floats F) where
  -- sort.Float64s
  unfoldable pub insert_float : F → List F → List F
  insert_float x [] = x ∷ []
  insert_float x (y ∷ ys) =
      let rest = insert_float x ys in if fl.lt y x then y ∷ rest else x ∷ y ∷ ys

  unfoldable pub sort_floats : List F → List F
  sort_floats [] = []
  sort_floats (x ∷ xs) = insert_float x (sort_floats xs)

  -- sorted[i], which panics on an index that is out of range, a negative one too.
  unfoldable pub value_at : List F → ℤ → Option F
  value_at sorted (pos i) = get_elem? sorted i
  value_at sorted (negsuc i) = none

  -- The interpolation between two ranks.
  unfoldable pub interpolate : List F → F → ℤ → ℤ → Option F
  interpolate sorted p lo hi = elim (value_at sorted lo) [
    | none ↦ none
    | some a ↦ if eqb_ℤ lo hi then some a else elim (value_at sorted hi) [
      | none ↦ none
      | some b ↦ some (fl.add a (fl.mul (fl.sub p (fl.of_int lo)) (fl.sub b a)))
    ]
  ]

  -- `percentile`, for a q between 0 and 1.
  unfoldable pub percentile : List F → F → Option F
  percentile [] q = some (fl.of_int (pos 0))
  percentile (x ∷ []) q = some x
  percentile (x ∷ y ∷ ys) q =
      let p = fl.mul q (fl.of_int (pos (length (y ∷ ys)))) in
      interpolate (sort_floats (x ∷ y ∷ ys)) p (fl.floor p) (fl.ceil p)

  unfoldable pub q95 : F
  q95 = fl.div (fl.of_int (pos 95)) (fl.of_int (pos 100))

  -- `math.Max(1.0, p)`
  unfoldable pub threshold_of : F → F
  threshold_of p = if fl.lt (fl.of_int (pos 1)) p then p else fl.of_int (pos 1)

  unfoldable pub losses : List (Bucket F) → List F
  losses [] = []
  losses (b ∷ bs) = b.stream_loss_pct ∷ losses bs

  unfoldable pub loss_events : F → List (Bucket F) → List (Bucket F)
  loss_events threshold [] = []
  loss_events threshold (b ∷ bs) =
      let rest = loss_events threshold bs in
      if fl.lt b.stream_loss_pct threshold then rest else b ∷ rest

  -- A responsive hop downstream that shows materially less loss.
  unfoldable pub contradicted : F → List (HopView F) → Bool
  contradicted src_loss [] = false
  contradicted src_loss (d ∷ ds) =
      let rest = contradicted src_loss ds in
      if not (str_eq d.ip "") && fl.lt (fl.add d.loss_pct (fl.of_int (pos 5))) src_loss
      then true
      else rest

  -- `RateLimitedICMP`, with the hops behind the i-th.
  unfoldable pub rate_limited_icmp : HopView F → List (HopView F) → Bool
  rate_limited_icmp src downstream =
      if fl.lt src.loss_pct (fl.of_int (pos 5)) then false else contradicted src.loss_pct downstream

  unfoldable pub fresh_score : HopView F → List (HopView F) → HopScore F
  fresh_score h downstream = record {
    rtt_hits = 0;
    loss_hits = 0;
    rtt_baseline = fl.add h.avg_rtt_ms (fl.mul (fl.of_int (pos 3)) h.std_dev_rtt_ms);
    suppress_loss = rate_limited_icmp h downstream;
  }

  unfoldable pub init_scores : Scores F → List (HopView F) → Scores F
  init_scores m [] = m
  init_scores m (h ∷ hs) =
      init_scores (if str_eq h.ip "" then m else set_score h.ttl (fresh_score h hs) m) hs

  unfoldable pub is_rtt_hit : HopScore F → HopView F → Bool
  is_rtt_hit sc h = fl.lt (fl.of_int (pos 0)) sc.rtt_baseline && fl.lt sc.rtt_baseline h.last_rtt_ms

  unfoldable pub is_loss_hit : HopScore F → HopView F → Bool
  is_loss_hit sc h = not sc.suppress_loss && fl.lt (fl.of_int (pos 1)) h.loss_pct

  unfoldable pub hit : HopScore F → HopView F → HopScore F
  hit sc h = record sc {
    rtt_hits = if is_rtt_hit sc h then sc.rtt_hits + 1 else sc.rtt_hits;
    loss_hits = if is_loss_hit sc h then sc.loss_hits + 1 else sc.loss_hits;
  }

  -- The inner loop.
  unfoldable pub tally_hops : Scores F → List (HopView F) → Scores F
  tally_hops m [] = m
  tally_hops m (h ∷ hs) =
      tally_hops (elim (score_of h.ttl m) [ none ↦ m | some sc ↦ set_score h.ttl (hit sc h) m ]) hs

  unfoldable pub tally : (Bucket F → List (HopView F)) → Scores F → List (Bucket F) → Scores F
  tally bucket_hops m [] = m
  tally bucket_hops m (b ∷ bs) = tally bucket_hops (tally_hops m (bucket_hops b)) bs

  unfoldable pub hits_of : HopScore F → ℕ
  hits_of sc = if ltb sc.rtt_hits sc.loss_hits then sc.loss_hits else sc.rtt_hits

  unfoldable pub format_evidence : HopScore F → ℕ → Evidence F
  format_evidence sc events =
      if ltb sc.rtt_hits sc.loss_hits
      then hop_loss sc.loss_hits events
      else rtt_spike sc.rtt_baseline sc.rtt_hits events

  unfoldable pub confidence_of : HopScore F → ℕ → F
  confidence_of sc events = fl.div (fl.of_int (pos (hits_of sc))) (fl.of_int (pos events))

  unfoldable pub half : F
  half = fl.div (fl.of_int (pos 1)) (fl.of_int (pos 2))

  unfoldable pub suspects_of : String → ℕ → Scores F → List (HopView F) → List (SuspectHop F)
  suspects_of source events m [] = []
  suspects_of source events m (h ∷ hs) =
      let rest = suspects_of source events m hs in
      elim (score_of h.ttl m) [
        | none ↦ rest
        | some sc ↦
            if fl.lt half (confidence_of sc events)
            then record {
              ttl = h.ttl;
              confidence = confidence_of sc events;
              evidence = format_evidence sc events;
              source = source;
            }
              ∷ rest
            else rest
      ]

  -- sort.SliceStable, by descending confidence.
  unfoldable pub insert_suspect : SuspectHop F → List (SuspectHop F) → List (SuspectHop F)
  insert_suspect s [] = s ∷ []
  insert_suspect s (r ∷ rs) =
      let rest = insert_suspect s rs in
      if fl.lt s.confidence r.confidence then r ∷ rest else s ∷ r ∷ rs

  unfoldable pub rank : List (SuspectHop F) → List (SuspectHop F)
  rank [] = []
  rank (s ∷ ss) = insert_suspect s (rank ss)

  -- From the loss events on: without events or scores there is nothing to say.
  unfoldable pub suspects_in :
      (Bucket F → List (HopView F))
      → String
      → List (HopView F)
      → List (Bucket F)
      → List (SuspectHop F)
  suspects_in bucket_hops source final_hops [] = []
  suspects_in bucket_hops source final_hops (e ∷ es) = rank (
      suspects_of source (length (e ∷ es)) (tally bucket_hops (init_scores [] final_hops) (e ∷ es))
        final_hops)

  unfoldable pub correlate_impl :
      (Bucket F → List (HopView F))
      → String
      → List (Bucket F)
      → List (HopView F)
      → Option (List (SuspectHop F))
  correlate_impl bucket_hops source [] final_hops = some []
  correlate_impl bucket_hops source (b ∷ bs) [] = some []
  correlate_impl bucket_hops source (b ∷ bs) (h ∷ hs) = elim (percentile (losses (b ∷ bs)) q95) [
    | none ↦ none
    | some p ↦
        some (suspects_in bucket_hops source (h ∷ hs) (loss_events (threshold_of p) (b ∷ bs)))
  ]

  unfoldable pub correlate : List (Bucket F) → List (HopView F) → Option (List (SuspectHop F))
  correlate buckets final_hops = correlate_impl (λ b. b.hops) "icmp" buckets final_hops

  unfoldable pub correlate_tcp : List (Bucket F) → List (HopView F) → Option (List (SuspectHop F))
  correlate_tcp buckets final_hops = correlate_impl (λ b. b.tcp_hops) "tcp" buckets final_hops
