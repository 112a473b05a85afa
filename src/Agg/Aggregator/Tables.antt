-- ===== src/Agg/Aggregator/Tables.antt =====
-- internal/agg/aggregator.go: the tables of reverse hops: a map by TTL, published in TTL order.
use dropline.Prelude.{
  List, [], ◌∷◌, true, false, ◌&&◌, Option, none, some, ◌≡◌, refl, ap, ◌∙◌, arith, Bool-cases, inl,
  inr, if◌then◌else◌,
}
use dropline.Prelude.Int.{ℤ, pos, ltb_ℤ, eqb_ℤ, eq_of_parts}
use dropline.Agg.State.{ReverseHopView}
use dropline.Agg.HopTables.{
  Table, remove_ttl, upsert, delete_above, prune, insert_by_ttl, sorted_views,
}

eqb→eq : (a b : ℤ) → eqb_ℤ a b ≡ true → a ≡ b
eqb→eq a b h = ground (arith, eq_of_parts a b)

eqb_refl : (a : ℤ) → eqb_ℤ a a ≡ true
eqb_refl a = ground arith

apart : (a b : ℤ) → ltb_ℤ a b ≡ false → eqb_ℤ a b ≡ false → ltb_ℤ b a ≡ true
apart a b h g = ground arith

apart_from : (k a b : ℤ) → eqb_ℤ a b ≡ false → eqb_ℤ b k ≡ true → eqb_ℤ a k ≡ false
apart_from k a b h g = ground arith

module _ {F : Type 0} where
  -- The entry of a key.
  abbrev pub get : ℤ → Table F → Option (ReverseHopView F)
  get k [] = none
  get k ((j, v) ∷ m) = if eqb_ℤ j k then some v else get k m

  -- The row of a TTL in a published table.
  abbrev pub row : ℤ → List (ReverseHopView F) → Option (ReverseHopView F)
  row k [] = none
  row k (v ∷ vs) = if eqb_ℤ v.ttl k then some v else row k vs

  -- One entry for a key, under its own TTL.
  abbrev pub IsTable : Table F → Type 0
  IsTable [] = Unit {0}
  IsTable ((k, v) ∷ m) = (v.ttl ≡ k) × (get k m ≡ none) × IsTable m

  abbrev pub IsFrom : ℤ → List (ReverseHopView F) → Type 0
  IsFrom t [] = Unit {0}
  IsFrom t (v ∷ vs) = (ltb_ℤ t v.ttl ≡ true) × IsFrom v.ttl vs

  -- The rows' TTLs ascend strictly.
  abbrev pub IsSortedByTtl : List (ReverseHopView F) → Type 0
  IsSortedByTtl [] = Unit {0}
  IsSortedByTtl (v ∷ vs) = IsFrom v.ttl vs

  get-remove_ttl :
      (k j : ℤ) (m : Table F) → get j (remove_ttl k m) ≡ (if eqb_ℤ k j then none else get j m)
  unfolding remove_ttl
  get-remove_ttl k j [] = ground arith
  get-remove_ttl k j ((i, v) ∷ m) = ground (arith, get-remove_ttl k j m)

  pub get-upsert :
      (k j : ℤ) (v : ReverseHopView F) (m : Table F)
      → get j (upsert k v m) ≡ (if eqb_ℤ k j then some v else get j m)
  unfolding upsert
  get-upsert k j v m = ground (arith, get-remove_ttl k j m)

  get-delete_above :
      (cap j : ℤ) (m : Table F)
      → get j (delete_above cap m) ≡ (if ltb_ℤ cap j then none else get j m)
  unfolding delete_above
  get-delete_above cap j [] = ground arith
  get-delete_above cap j ((i, v) ∷ m) = ground (arith, get-delete_above cap j m)

  pub get-prune :
      (cap j : ℤ) (m : Table F)
      → get j (prune cap m) ≡ (if ltb_ℤ (pos 0) cap && ltb_ℤ cap j then none else get j m)
  unfolding prune
  get-prune cap j m = ground (arith, get-delete_above cap j m)

  remove_ttl-IsTable : (k : ℤ) (m : Table F) → IsTable m → IsTable (remove_ttl k m)
  unfolding remove_ttl
  remove_ttl-IsTable k [] h = tt
  remove_ttl-IsTable k ((i, v) ∷ m) (own, fresh, h) = elim (Bool-cases (eqb_ℤ i k)) [
    | inl e ↦ rw e (remove_ttl-IsTable k m h)
    | inr e ↦ rw e (own, ground (arith, get-remove_ttl k i m, fresh), remove_ttl-IsTable k m h)
  ]

  upsert-IsTable :
      (k : ℤ) (v : ReverseHopView F) (m : Table F) → v.ttl ≡ k → IsTable m → IsTable (upsert k v m)
  unfolding upsert
  upsert-IsTable k v m own h = (own, ground (arith, get-remove_ttl k k m), remove_ttl-IsTable k m h)

  delete_above-IsTable : (cap : ℤ) (m : Table F) → IsTable m → IsTable (delete_above cap m)
  unfolding delete_above
  delete_above-IsTable cap [] h = tt
  delete_above-IsTable cap ((i, v) ∷ m) (own, fresh, h) = elim (Bool-cases (ltb_ℤ cap i)) [
    | inl e ↦ rw e (delete_above-IsTable cap m h)
    | inr e ↦
        rw e (own, ground (arith, get-delete_above cap i m, fresh), delete_above-IsTable cap m h)
  ]

  prune-IsTable : (cap : ℤ) (m : Table F) → IsTable m → IsTable (prune cap m)
  unfolding prune
  prune-IsTable cap m h = elim (Bool-cases (ltb_ℤ (pos 0) cap)) [
    | inl e ↦ rw e (delete_above-IsTable cap m h)
    | inr e ↦ rw e h
  ]

  -- One update of the map keeps it a table.
  pub update-IsTable :
      (k cap : ℤ) (v : ReverseHopView F) (m : Table F)
      → v.ttl ≡ k
      → IsTable m
      → IsTable (prune cap (upsert k v m))
  update-IsTable k cap v m own h = prune-IsTable cap (upsert k v m) (upsert-IsTable k v m own h)

  row_rest :
      (k : ℤ) (w : ReverseHopView F) (ws : List (ReverseHopView F))
      → row k (w ∷ ws) ≡ none
      → (eqb_ℤ w.ttl k ≡ false) × (row k ws ≡ none)
  row_rest k w ws h = ground arith

  row-insert_by_ttl :
      (k : ℤ) (v : ReverseHopView F) (vs : List (ReverseHopView F))
      → row v.ttl vs ≡ none
      → row k (insert_by_ttl v vs) ≡ (if eqb_ℤ v.ttl k then some v else row k vs)
  unfolding insert_by_ttl
  row-insert_by_ttl k v [] h = refl
  row-insert_by_ttl k v (w ∷ ws) h = elim (Bool-cases (ltb_ℤ w.ttl v.ttl)) [
    | inl e ↦
        let (other, rest) = row_rest v.ttl w ws h in
        rw (e, row-insert_by_ttl k v ws rest)
          (elim (Bool-cases (eqb_ℤ v.ttl k)) [
            | inl g ↦ rw (g, apart_from k w.ttl v.ttl other g) refl
            | inr g ↦ rw g refl
          ])
    | inr e ↦ rw e refl
  ]

  insert-IsFrom :
      (t : ℤ) (v : ReverseHopView F) (vs : List (ReverseHopView F))
      → ltb_ℤ t v.ttl ≡ true
      → row v.ttl vs ≡ none
      → IsFrom t vs
      → IsFrom t (insert_by_ttl v vs)
  unfolding insert_by_ttl
  insert-IsFrom t v [] l n h = (l, tt)
  insert-IsFrom t v (w ∷ ws) l n h = elim (Bool-cases (ltb_ℤ w.ttl v.ttl)) [
    | inl e ↦ rw e (h.0, insert-IsFrom w.ttl v ws e (row_rest v.ttl w ws n).1 h.1)
    | inr e ↦ rw e (l, (apart w.ttl v.ttl e (row_rest v.ttl w ws n).0, h.1))
  ]

  -- The published list holds exactly the rows of the map.
  pub row-sorted_views : (k : ℤ) (m : Table F) → IsTable m → row k (sorted_views m) ≡ get k m
  unfolding sorted_views
  row-sorted_views k [] h = refl
  row-sorted_views k ((j, v) ∷ m) (own, fresh, h) =
      row-insert_by_ttl k v (sorted_views m)
        (row-sorted_views v.ttl m h ∙ ap (λ (i : ℤ). get i m) own ∙ fresh)
      ∙ rw (own, row-sorted_views k m h) refl

  insert-IsSortedByTtl :
      (v : ReverseHopView F) (vs : List (ReverseHopView F))
      → row v.ttl vs ≡ none
      → IsSortedByTtl vs
      → IsSortedByTtl (insert_by_ttl v vs)
  unfolding insert_by_ttl
  insert-IsSortedByTtl v [] n h = tt
  insert-IsSortedByTtl v (w ∷ ws) n h = elim (Bool-cases (ltb_ℤ w.ttl v.ttl)) [
    | inl e ↦ rw e (insert-IsFrom w.ttl v ws e (row_rest v.ttl w ws n).1 h)
    | inr e ↦ rw e (apart w.ttl v.ttl e (row_rest v.ttl w ws n).0, h)
  ]

  pub sorted_views-IsSortedByTtl : (m : Table F) → IsTable m → IsSortedByTtl (sorted_views m)
  unfolding sorted_views
  sorted_views-IsSortedByTtl [] h = tt
  sorted_views-IsSortedByTtl ((j, v) ∷ m) (own, fresh, h) =
      insert-IsSortedByTtl v (sorted_views m)
        (row-sorted_views v.ttl m h ∙ ap (λ (i : ℤ). get i m) own ∙ fresh)
        (sorted_views-IsSortedByTtl m h)

  -- One update of the map, in the published rows.
  pub row_update :
      (k j cap : ℤ) (v : ReverseHopView F) (m : Table F)
      → v.ttl ≡ k
      → IsTable m
      → row j (sorted_views (prune cap (upsert k v m))) ≡ (
          if ltb_ℤ (pos 0) cap && ltb_ℤ cap j
          then none
          else if eqb_ℤ k j
          then some v
          else row j (sorted_views m))
  row_update k j cap v m own h =
      row-sorted_views j (prune cap (upsert k v m)) (update-IsTable k cap v m own h)
      ∙ get-prune cap j (upsert k v m)
      ∙ rw (get-upsert k j v m, row-sorted_views j m h) refl
