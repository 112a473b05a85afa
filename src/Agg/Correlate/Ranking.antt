-- ===== src/Agg/Correlate/Ranking.antt =====
-- internal/agg/correlate.go: what the correlator returns, and in which order.
use dropline.Prelude.{
  ℕ, zero, suc, ◌≤◌, ◌<◌, String, List, [], ◌∷◌, true, false, some, All, length, get_elem?, ◌≡◌,
  refl, ap, ◌∙◌, arith, Bool-cases, Option-cases, inl, inr, ◌⊎◌,
}
use dropline.Prelude.Int.{ℤ, pos, negsuc, eqb_ℤ}
use dropline.Prelude.Floats.{Floats}
use dropline.Agg.State.{Bucket, HopView}
use dropline.Agg.Correlate.{
  SuspectHop, Scores, score_of, insert_float, sort_floats, value_at, interpolate, percentile, q95,
  losses, loss_events, threshold_of, half, confidence_of, suspects_of, insert_suspect, rank,
  suspects_in, correlate_impl,
}

-- An index between 0 and n.
abbrev pub IsRank : ℕ → ℤ → Type 0
IsRank n (pos i) = i ≤ n
IsRank n (negsuc i) = ⊥

module _ {F : Type 0} where
  -- The TTL of one of the hops.
  abbrev pub IsTtlOf : ℤ → List (HopView F) → Type 0
  IsTtlOf t [] = ⊥
  IsTtlOf t (h ∷ hs) = (h.ttl ≡ t) ⊎ IsTtlOf t hs

module _ {F : Type 0} (fl : Floats F) where
  abbrev IsAbove : SuspectHop F → List (SuspectHop F) → Type 0
  IsAbove s [] = Unit {0}
  IsAbove s (r ∷ rs) = fl.lt s.confidence r.confidence ≡ false

  -- No suspect has more confidence than the one before it.
  abbrev pub IsRanked : List (SuspectHop F) → Type 0
  IsRanked [] = Unit {0}
  IsRanked (s ∷ rs) = IsAbove s rs × IsRanked rs

  -- A suspect of the source, with more than half a confidence, at a hop of the table.
  abbrev pub IsSound : String → List (HopView F) → SuspectHop F → Type 0
  IsSound source hops s =
      (s.source ≡ source) × (fl.lt (half fl) s.confidence ≡ true) × IsTtlOf s.ttl hops

  insert-All :
      (P : SuspectHop F → Type 0) (s : SuspectHop F) (rs : List (SuspectHop F))
      → P s
      → All P rs
      → All P (insert_suspect fl s rs)
  unfolding insert_suspect
  insert-All P s [] h k = (h, tt)
  insert-All P s (r ∷ rs) h k = elim (Bool-cases (fl.lt s.confidence r.confidence)) [
    | inl e ↦ rw e (k.0, insert-All P s rs h k.1)
    | inr e ↦ rw e (h, k)
  ]

  pub rank-All :
      (P : SuspectHop F → Type 0) (ss : List (SuspectHop F)) → All P ss → All P (rank fl ss)
  unfolding rank
  rank-All P [] h = tt
  rank-All P (s ∷ ss) h = insert-All P s (rank fl ss) h.0 (rank-All P ss h.1)

  -- A hop further down the table.
  weaken :
      (source : String) (h : HopView F) (hs : List (HopView F)) (ss : List (SuspectHop F))
      → All (IsSound source hs) ss
      → All (IsSound source (h ∷ hs)) ss
  weaken source h hs [] k = tt
  weaken source h hs (s ∷ ss) ((a, b, c), k) = ((a, b, inr c), weaken source h hs ss k)

  pub suspects_of-All :
      (source : String) (events : ℕ) (m : Scores F) (hs : List (HopView F))
      → All (IsSound source hs) (suspects_of fl source events m hs)
  unfolding suspects_of
  suspects_of-All source events m [] = tt
  suspects_of-All source events m (h ∷ hs) =
      let rest = weaken source h hs _ (suspects_of-All source events m hs) in
      elim (Option-cases (score_of h.ttl m)) [
        | inl e ↦ rw (e, suspects_of) rest
        | inr (sc, e) ↦ elim (Bool-cases (fl.lt (half fl) (confidence_of fl sc events))) [
          | inl g ↦ rw (e, suspects_of) (rw g ((refl, g, inl refl), rest))
          | inr g ↦ rw (e, suspects_of) (rw g rest)
        ]
      ]

  insert-IsAbove :
      (x s : SuspectHop F) (rs : List (SuspectHop F))
      → IsAbove x rs
      → fl.lt x.confidence s.confidence ≡ false
      → IsAbove x (insert_suspect fl s rs)
  unfolding insert_suspect
  insert-IsAbove x s [] k h = h
  insert-IsAbove x s (r ∷ rs) k h = elim (Bool-cases (fl.lt s.confidence r.confidence)) [
    | inl e ↦ rw e k
    | inr e ↦ rw e h
  ]

  module _ (asym : (a b : F) → fl.lt a b ≡ true → fl.lt b a ≡ false) where
    insert-IsRanked :
        (s : SuspectHop F) (rs : List (SuspectHop F))
        → IsRanked rs
        → IsRanked (insert_suspect fl s rs)
    unfolding insert_suspect
    insert-IsRanked s [] k = (tt, tt)
    insert-IsRanked s (r ∷ rs) k = elim (Bool-cases (fl.lt s.confidence r.confidence)) [
      | inl e ↦
          rw e
            (insert-IsAbove r s rs k.0 (asym s.confidence r.confidence e), insert-IsRanked s rs k.1)
      | inr e ↦ rw e (e, k)
    ]

    rank-IsRanked : (ss : List (SuspectHop F)) → IsRanked (rank fl ss)
    unfolding rank
    rank-IsRanked [] = tt
    rank-IsRanked (s ∷ ss) = insert-IsRanked s (rank fl ss) (rank-IsRanked ss)

    suspects_in_lem :
        (f : Bucket F → List (HopView F)) (source : String) (hs : List (HopView F))
        (events : List (Bucket F))
        → IsRanked (suspects_in fl f source hs events)
          × All (IsSound source hs) (suspects_in fl f source hs events)
    unfolding suspects_in
    suspects_in_lem f source hs [] = (tt, tt)
    suspects_in_lem f source hs (e ∷ es) = (
      rank-IsRanked _,
      rank-All (IsSound source hs) _ (suspects_of-All source (length (e ∷ es)) _ hs),
    )

  -- sort.Float64s keeps the length.
  length-insert_float : (x : F) (ys : List F) → length (insert_float fl x ys) ≡ suc (length ys)
  unfolding insert_float
  length-insert_float x [] = refl
  length-insert_float x (y ∷ ys) = ground (arith, length-insert_float x ys)

  length-sort_floats : (xs : List F) → length (sort_floats fl xs) ≡ length xs
  unfolding sort_floats
  length-sort_floats [] = refl
  length-sort_floats (x ∷ xs) =
      length-insert_float x (sort_floats fl xs) ∙ ap suc (length-sort_floats xs)

  get_elem?_lem : (xs : List F) (i : ℕ) → i < length xs → (x : F) × (get_elem? xs i ≡ some x)
  get_elem?_lem [] i h = absurd (omega arith)
  get_elem?_lem (x ∷ xs) zero h = (x, refl)
  get_elem?_lem (x ∷ xs) (suc i) h = get_elem?_lem xs i (omega arith)

  -- Between the ranks 0 and n, the rounded products of q and n stay: floor and ceiling of a
  -- product of a number between 0 and 1 with n.
  abbrev pub HasRanks : F → Type 0
  HasRanks q =
      (n : ℕ)
      → IsRank n (fl.floor (fl.mul q (fl.of_int (pos n))))
        × IsRank n (fl.ceil (fl.mul q (fl.of_int (pos n))))

  value_at_lem :
      (xs : List F) (i : ℤ) (n : ℕ)
      → IsRank n i
      → n < length xs
      → (a : F) × (value_at fl xs i ≡ some a)
  unfolding value_at
  value_at_lem xs (pos i) n rank small = get_elem?_lem xs i (omega arith)
  value_at_lem xs (negsuc i) n rank small = absurd rank

  interpolate_lem :
      (xs : List F) (p : F) (lo hi : ℤ) (n : ℕ)
      → IsRank n lo
      → IsRank n hi
      → n < length xs
      → (r : F) × (interpolate fl xs p lo hi ≡ some r)
  unfolding interpolate
  interpolate_lem xs p lo hi n l h small =
      let (a, e) = value_at_lem xs lo n l small in
      let (b, g) = value_at_lem xs hi n h small in
      elim (Bool-cases (eqb_ℤ lo hi)) [
        | inl same ↦ (a, rw (e, interpolate) (rw same refl))
        | inr apart ↦ (
          fl.add a (fl.mul (fl.sub p (fl.of_int lo)) (fl.sub b a)),
          rw (e, interpolate) (rw (apart, g) refl),
        )
      ]

  percentile_lem : (q : F) (xs : List F) → HasRanks q → (p : F) × (percentile fl xs q ≡ some p)
  unfolding percentile
  percentile_lem q [] ranks = (_, refl)
  percentile_lem q (x ∷ []) ranks = (x, refl)
  percentile_lem q (x ∷ y ∷ ys) ranks =
      let (l, h) = ranks (length (y ∷ ys)) in
      let n = length-sort_floats (x ∷ y ∷ ys) in
      interpolate_lem (sort_floats fl (x ∷ y ∷ ys)) _ _ _ (length (y ∷ ys)) l h (omega arith)

  -- For a table of floats whose order is asymmetric and whose rank products stay in range, the
  -- correlator never indexes out of range; the suspects that it returns come in descending order
  -- of confidence, and each is named by its source, has a confidence over one half, and stands at
  -- the TTL of a hop of the final table.
  pub correlate_impl-IsRanked :
      (f : Bucket F → List (HopView F)) (source : String) (buckets : List (Bucket F))
      (hops : List (HopView F))
      → ((a b : F) → fl.lt a b ≡ true → fl.lt b a ≡ false)
      → HasRanks (q95 fl)
      → (out : List (SuspectHop F)) × (correlate_impl fl f source buckets hops ≡ some out)
        × IsRanked out
        × All (IsSound source hops) out
  unfolding correlate_impl
  correlate_impl-IsRanked f source [] hops asym ranks = ([], refl, tt, tt)
  correlate_impl-IsRanked f source (b ∷ bs) [] asym ranks = ([], refl, tt, tt)
  correlate_impl-IsRanked f source (b ∷ bs) (h ∷ hs) asym ranks =
      let (p, e) = percentile_lem (q95 fl) (losses fl (b ∷ bs)) ranks in
      let (ranked, sound) =
        suspects_in_lem asym f source (h ∷ hs) (loss_events fl (threshold_of fl p) (b ∷ bs)) in
      (
        suspects_in fl f source (h ∷ hs) (loss_events fl (threshold_of fl p) (b ∷ bs)),
        rw (e, correlate_impl) refl,
        ranked,
        sound,
      )
