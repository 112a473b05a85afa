-- ===== src/Agg/Merge.antt =====
-- internal/agg/correlate.go: `MergeSuspects`. The map byTTL has each suspect under its own TTL, and
-- is the list of its values; the order in which Go ranges over it is a parameter.
pub mod Find
pub mod Sorted
pub mod Joint
use dropline.Prelude.{
  ℕ, String, str_eq, List, [], ◌∷◌, ◌++◌, Bool, true, false, not, ◌&&◌, ◌||◌, Option, none, some,
  ltb, if◌then◌else◌,
}
use dropline.Prelude.Int.{ℤ, eqb_ℤ}
use dropline.Prelude.Floats.{Floats}
use dropline.Agg.Correlate.{Evidence, both_probes, SuspectHop}

unfoldable pub source_rank : String → ℕ
source_rank s =
    if str_eq s "icmp+tcp"
    then 0
    else if str_eq s "tcp"
    then 1
    else if str_eq s "icmp"
    then 2
    else 3

module _ {F : Type 0} where
  -- v, ok := byTTL[t]
  unfoldable pub find_ttl : ℤ → List (SuspectHop F) → Option (SuspectHop F)
  find_ttl t [] = none
  find_ttl t (s ∷ m) = if eqb_ℤ s.ttl t then some s else find_ttl t m

  -- byTTL[s.TTL] = s
  unfoldable pub put_ttl : SuspectHop F → List (SuspectHop F) → List (SuspectHop F)
  put_ttl s [] = s ∷ []
  put_ttl s (r ∷ m) = let rest = put_ttl s m in if eqb_ℤ r.ttl s.ttl then s ∷ m else r ∷ rest

  -- if s.Source == "" { s.Source = source }
  unfoldable pub with_source : String → SuspectHop F → SuspectHop F
  with_source source s = record s { source = if str_eq s.source "" then source else s.source }

module _ {F : Type 0} (fl : Floats F) where
  -- The verdict on a TTL that both have flagged.
  unfoldable pub joint : SuspectHop F → SuspectHop F → SuspectHop F
  joint existing s = record {
    ttl = s.ttl;
    confidence =
        if fl.lt existing.confidence s.confidence then s.confidence else existing.confidence;
    evidence = both_probes;
    source = "icmp+tcp";
  }

  unfoldable pub add_icmp : List (SuspectHop F) → List (SuspectHop F) → List (SuspectHop F)
  add_icmp m [] = m
  add_icmp m (s ∷ ss) = add_icmp (put_ttl (with_source "icmp" s) m) ss

  -- What an entry of the map and a suspect of the TCP correlator come to.
  unfoldable pub folded : Option (SuspectHop F) → SuspectHop F → SuspectHop F
  folded none s = s
  folded (some existing) s = joint existing s

  unfoldable pub add_tcp : List (SuspectHop F) → List (SuspectHop F) → List (SuspectHop F)
  add_tcp m [] = m
  add_tcp m (s ∷ ss) =
      let tcp = with_source "tcp" s in add_tcp (put_ttl (folded (find_ttl tcp.ttl m) tcp) m) ss

  unfoldable pub by_ttl : List (SuspectHop F) → List (SuspectHop F) → List (SuspectHop F)
  by_ttl icmp tcp = add_tcp (add_icmp [] icmp) tcp

  -- The order of the sort: a before b. Confidences differ if one is below the other, as none is NaN.
  unfoldable pub outranks : SuspectHop F → SuspectHop F → Bool
  outranks a b =
      if fl.lt a.confidence b.confidence || fl.lt b.confidence a.confidence
      then fl.lt b.confidence a.confidence
      else ltb (source_rank a.source) (source_rank b.source)

  unfoldable pub insert_merged : SuspectHop F → List (SuspectHop F) → List (SuspectHop F)
  insert_merged s [] = s ∷ []
  insert_merged s (r ∷ rs) =
      let rest = insert_merged s rs in if outranks r s then r ∷ rest else s ∷ r ∷ rs

  unfoldable pub rank_merged : List (SuspectHop F) → List (SuspectHop F)
  rank_merged [] = []
  rank_merged (s ∷ ss) = insert_merged s (rank_merged ss)

  -- `MergeSuspects`, with the order in which the map's values come.
  unfoldable pub merge_suspects :
      (List (SuspectHop F) → List (SuspectHop F))
      → List (SuspectHop F)
      → List (SuspectHop F)
      → List (SuspectHop F)
  merge_suspects order icmp tcp = rank_merged (order (by_ttl icmp tcp))
