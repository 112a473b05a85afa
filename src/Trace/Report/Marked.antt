-- ===== src/Trace/Report/Marked.antt =====
-- cmd/dropline/trace.go against internal/agg/correlate.go: the hops that are marked at the end.
use dropline.Prelude.{
  ◌⊎◌, String, str_eq, List, [], ◌∷◌, All, Bool, true, false, ◌||◌, Option, none, some, ◌≡◌, refl,
  sym, ap, ◌∙◌, Bool-cases, inl, inr,
}
use dropline.Prelude.Int.{ℤ, eqb_ℤ}
use dropline.Prelude.Floats.{Floats}
use dropline.Agg.HopTables.{wanted}
use dropline.Agg.Correlate.{SuspectHop}
use dropline.Agg.Merge.{
  find_ttl, with_source, by_ttl, outranks, insert_merged, rank_merged, merge_suspects,
}
use dropline.Agg.Merge.Sorted.{sort_by-UniqueTtl}
use dropline.Agg.Merge.Find.{UniqueTtl, find_at, find_past, find-same}
use dropline.Agg.Merge.Joint.{verdict, merge_suspects-find}
use dropline.Trace.Report.{suspect_ttls_for_source}

module _ {F : Type 0} where
  abbrev pub is_there : Option (SuspectHop F) → Bool
  is_there none = false
  is_there (some s) = true

  -- A suspect that counts for a source.
  abbrev flagged : String → Option (SuspectHop F) → Bool
  flagged source none = false
  flagged source (some s) = str_eq s.source source || str_eq s.source "icmp+tcp"

  -- The suspects of a list name its source, or none.
  abbrev pub AreOf : String → List (SuspectHop F) → Type 0
  AreOf source ss = All (λ (s : SuspectHop F). (s.source ≡ "") ⊎ (s.source ≡ source)) ss

  abbrev IsOf : String → Option (SuspectHop F) → Type 0
  IsOf source none = Unit {0}
  IsOf source (some s) = (s.source ≡ "") ⊎ (s.source ≡ source)

  found-IsOf :
      (source : String) (t : ℤ) (ss : List (SuspectHop F))
      → AreOf source ss
      → IsOf source (find_ttl t ss)
  found-IsOf source t [] k = unfold find_ttl in tt
  found-IsOf source t (s ∷ ss) (own, k) = elim (Bool-cases (eqb_ℤ s.ttl t)) [
    | inl hit ↦ rw (find_at t s ss hit) own
    | inr miss ↦ rw (find_past t s ss miss) (found-IsOf source t ss k)
  ]

  source_of :
      (source : String) (s : SuspectHop F)
      → IsOf source (some s)
      → (with_source source s).source ≡ source
  unfolding with_source
  source_of source s (inl e) = rw e refl
  source_of source s (inr e) = elim (Bool-cases (str_eq s.source "")) [
    | inl blank ↦ rw blank refl
    | inr named ↦ rw named e
  ]

  here :
      (source : String) (t : ℤ) (s : SuspectHop F) (ss : List (SuspectHop F))
      → eqb_ℤ s.ttl t ≡ true
      → wanted (suspect_ttls_for_source ss source) t ≡ false
      → wanted (suspect_ttls_for_source (s ∷ ss) source) t ≡ flagged source (some s)
  unfolding suspect_ttls_for_source wanted
  here source t s ss hit none_left = elim (Bool-cases (flagged source (some s))) [
    | inl counts ↦ rw counts (rw hit refl)
    | inr other ↦ rw other none_left
  ]

  there :
      (source : String) (t : ℤ) (s : SuspectHop F) (ss : List (SuspectHop F))
      → eqb_ℤ s.ttl t ≡ false
      → wanted (suspect_ttls_for_source (s ∷ ss) source) t
        ≡ wanted (suspect_ttls_for_source ss source) t
  unfolding suspect_ttls_for_source wanted
  there source t s ss miss = elim (Bool-cases (flagged source (some s))) [
    | inl counts ↦ rw counts (rw miss refl)
    | inr other ↦ rw other refl
  ]

  suspect_ttls_wanted :
      (source : String) (t : ℤ) (ss : List (SuspectHop F))
      → UniqueTtl ss
      → wanted (suspect_ttls_for_source ss source) t ≡ flagged source (find_ttl t ss)
  suspect_ttls_wanted source t [] u = unfold suspect_ttls_for_source wanted find_ttl in refl
  suspect_ttls_wanted source t (s ∷ ss) (absent, u) =
      let ih = suspect_ttls_wanted source t ss u in
      elim (Bool-cases (eqb_ℤ s.ttl t)) [
        | inl hit ↦
            let gone : find_ttl t ss ≡ none = sym (find-same t s.ttl ss hit) ∙ absent in
            rw (find_at t s ss hit) (here source t s ss hit (ih ∙ ap (flagged source) gone))
        | inr miss ↦ rw (find_past t s ss miss) (there source t s ss miss ∙ ih)
      ]

module _ {F : Type 0} (fl : Floats F) where
  rank_merged-UniqueTtl : (ss : List (SuspectHop F)) → UniqueTtl ss → UniqueTtl (rank_merged fl ss)
  unfolding rank_merged insert_merged
  rank_merged-UniqueTtl ss u = sort_by-UniqueTtl (outranks fl) ss u

  by_icmp :
      (a b : Option (SuspectHop F))
      → IsOf "icmp" a
      → IsOf "tcp" b
      → flagged "icmp" (verdict fl a b) ≡ is_there a
  by_icmp none none k l = refl
  by_icmp (some a) none k l = rw (source_of "icmp" a k) refl
  by_icmp none (some b) k l = rw (source_of "tcp" b l) refl
  by_icmp (some a) (some b) k l = refl

  by_tcp :
      (a b : Option (SuspectHop F))
      → IsOf "icmp" a
      → IsOf "tcp" b
      → flagged "tcp" (verdict fl a b) ≡ is_there b
  by_tcp none none k l = refl
  by_tcp (some a) none k l = rw (source_of "icmp" a k) refl
  by_tcp none (some b) k l = rw (source_of "tcp" b l) refl
  by_tcp (some a) (some b) k l = refl

  -- The TTLs that are marked in a hop table are those that the correlator of its source has flagged,
  -- whatever the merging did to them: in whatever order Go ranges over the map, of two lists with one
  -- suspect at most for a TTL, each with the names of its own source, a TTL is marked among the ICMP
  -- hops exactly if the ICMP list has a suspect there, and among the TCP hops exactly if the TCP
  -- list has.
  pub marked_by_source :
      (order : List (SuspectHop F) → List (SuspectHop F)) (t : ℤ) (icmp tcp : List (SuspectHop F))
      → UniqueTtl icmp
      → UniqueTtl tcp
      → AreOf "icmp" icmp
      → AreOf "tcp" tcp
      → UniqueTtl (order (by_ttl fl icmp tcp))
      → ((u : ℤ) → find_ttl u (order (by_ttl fl icmp tcp)) ≡ find_ttl u (by_ttl fl icmp tcp))
      → (wanted (suspect_ttls_for_source (merge_suspects fl order icmp tcp) "icmp") t
          ≡ is_there (find_ttl t icmp))
        × (wanted (suspect_ttls_for_source (merge_suspects fl order icmp tcp) "tcp") t
            ≡ is_there (find_ttl t tcp))
  marked_by_source order t icmp tcp u w of_icmp of_tcp once ranges =
      let unique : UniqueTtl (merge_suspects fl order icmp tcp) =
        unfold merge_suspects in rank_merged-UniqueTtl (order (by_ttl fl icmp tcp)) once in
      let found = merge_suspects-find fl order t icmp tcp u w once ranges in
      let k = found-IsOf "icmp" t icmp of_icmp in
      let l = found-IsOf "tcp" t tcp of_tcp in
      (
        suspect_ttls_wanted "icmp" t (merge_suspects fl order icmp tcp) unique
            ∙ ap (flagged "icmp") found
            ∙ by_icmp (find_ttl t icmp) (find_ttl t tcp) k l,
        suspect_ttls_wanted "tcp" t (merge_suspects fl order icmp tcp) unique
            ∙ ap (flagged "tcp") found
            ∙ by_tcp (find_ttl t icmp) (find_ttl t tcp) k l,
      )
