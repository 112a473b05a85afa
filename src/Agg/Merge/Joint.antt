-- ===== src/Agg/Merge/Joint.antt =====
-- internal/agg/correlate.go: the merged list against the two lists that it is made of.
use dropline.Prelude.{
  String, List, [], ◌∷◌, true, false, Option, none, some, if◌then◌else◌, ◌≡◌, refl, sym, ap, ◌∙◌,
  Bool-cases, inl, inr,
}
use dropline.Prelude.Int.{ℤ, eqb_ℤ}
use dropline.Prelude.Floats.{Floats}
use dropline.Agg.Correlate.{SuspectHop, both_probes}
use dropline.Agg.Merge.{
  find_ttl, put_ttl, with_source, joint, add_icmp, folded, add_tcp, by_ttl, outranks, insert_merged,
  rank_merged, merge_suspects,
}
use dropline.Agg.Merge.Sorted.{sort_by-find}
use dropline.Agg.Merge.Find.{UniqueTtl, find_at, find_past, find_ttl-put_ttl, find-same, find_none}

module _ {F : Type 0} (fl : Floats F) where
  -- The verdict on a TTL: none, that of one list, or the joint one, with the higher confidence.
  abbrev pub verdict : Option (SuspectHop F) → Option (SuspectHop F) → Option (SuspectHop F)
  verdict none none = none
  verdict (some a) none = some (with_source "icmp" a)
  verdict none (some b) = some (with_source "tcp" b)
  verdict (some a) (some b) = some (record {
    ttl = b.ttl;
    confidence = if fl.lt a.confidence b.confidence then b.confidence else a.confidence;
    evidence = both_probes;
    source = "icmp+tcp";
  })

  -- What the map and the suspects that are still to come say of a TTL.
  abbrev later : Option (SuspectHop F) → Option (SuspectHop F) → Option (SuspectHop F)
  later o none = o
  later o (some s) = some (folded fl o (with_source "tcp" s))

  abbrev first_of : Option (SuspectHop F) → Option (SuspectHop F) → Option (SuspectHop F)
  first_of o none = o
  first_of o (some s) = some (with_source "icmp" s)

  -- A write of a suspect with the TTL of another.
  put-hit :
      (t : ℤ) (v s : SuspectHop F) (m : List (SuspectHop F))
      → v.ttl ≡ s.ttl
      → eqb_ℤ s.ttl t ≡ true
      → find_ttl t (put_ttl v m) ≡ some v
  put-hit t v s m e hit = find_ttl-put_ttl t v m ∙ rw (ap (λ (z : ℤ). eqb_ℤ z t) e ∙ hit) refl

  put-miss :
      (t : ℤ) (v s : SuspectHop F) (m : List (SuspectHop F))
      → v.ttl ≡ s.ttl
      → eqb_ℤ s.ttl t ≡ false
      → find_ttl t (put_ttl v m) ≡ find_ttl t m
  put-miss t v s m e miss = find_ttl-put_ttl t v m ∙ rw (ap (λ (z : ℤ). eqb_ℤ z t) e ∙ miss) refl

  with_source-ttl : (source : String) (s : SuspectHop F) → (with_source source s).ttl ≡ s.ttl
  unfolding with_source
  with_source-ttl source s = refl

  folded-ttl : (o : Option (SuspectHop F)) (s : SuspectHop F) → (folded fl o s).ttl ≡ s.ttl
  unfolding folded joint
  folded-ttl none s = refl
  folded-ttl (some a) s = refl

  add_icmp-find :
      (t : ℤ) (m ss : List (SuspectHop F))
      → UniqueTtl ss
      → find_ttl t (add_icmp fl m ss) ≡ first_of (find_ttl t m) (find_ttl t ss)
  unfolding add_icmp
  add_icmp-find t m [] u = unfold find_ttl in refl
  add_icmp-find t m (s ∷ ss) (absent, u) =
      let v = with_source "icmp" s in
      let ih = add_icmp-find t (put_ttl v m) ss u in
      elim (Bool-cases (eqb_ℤ s.ttl t)) [
        | inl hit ↦
            let none_left : find_ttl t ss ≡ none = sym (find-same t s.ttl ss hit) ∙ absent in
            ih
            ∙ ap (first_of (find_ttl t (put_ttl v m))) none_left
            ∙ put-hit t v s m (with_source-ttl "icmp" s) hit
            ∙ ap (first_of (find_ttl t m)) (sym (find_at t s ss hit))
        | inr miss ↦
            ih
            ∙ ap (λ (o : Option (SuspectHop F)). first_of o (find_ttl t ss))
                (put-miss t v s m (with_source-ttl "icmp" s) miss)
            ∙ ap (first_of (find_ttl t m)) (sym (find_past t s ss miss))
      ]

  add_tcp-find :
      (t : ℤ) (m ss : List (SuspectHop F))
      → UniqueTtl ss
      → find_ttl t (add_tcp fl m ss) ≡ later (find_ttl t m) (find_ttl t ss)
  unfolding add_tcp
  add_tcp-find t m [] u = unfold find_ttl in refl
  add_tcp-find t m (s ∷ ss) (absent, u) =
      let tcp = with_source "tcp" s in
      let v = folded fl (find_ttl tcp.ttl m) tcp in
      let e : v.ttl ≡ s.ttl = folded-ttl (find_ttl tcp.ttl m) tcp ∙ with_source-ttl "tcp" s in
      let ih = add_tcp-find t (put_ttl v m) ss u in
      elim (Bool-cases (eqb_ℤ s.ttl t)) [
        | inl hit ↦
            let none_left : find_ttl t ss ≡ none = sym (find-same t s.ttl ss hit) ∙ absent in
            let own : find_ttl tcp.ttl m ≡ find_ttl t m =
              ap (λ (z : ℤ). find_ttl z m) (with_source-ttl "tcp" s) ∙ find-same t s.ttl m hit in
            ih
            ∙ ap (later (find_ttl t (put_ttl v m))) none_left
            ∙ put-hit t v s m e hit
            ∙ ap (λ (o : Option (SuspectHop F)). some (folded fl o tcp)) own
            ∙ ap (later (find_ttl t m)) (sym (find_at t s ss hit))
        | inr miss ↦
            ih
            ∙ ap (λ (o : Option (SuspectHop F)). later o (find_ttl t ss)) (put-miss t v s m e miss)
            ∙ ap (later (find_ttl t m)) (sym (find_past t s ss miss))
      ]

  both : (a b : Option (SuspectHop F)) → later (first_of none a) b ≡ verdict a b
  unfolding folded joint with_source
  both none none = refl
  both (some a) none = refl
  both none (some b) = refl
  both (some a) (some b) = refl

  by_ttl-find :
      (t : ℤ) (icmp tcp : List (SuspectHop F))
      → UniqueTtl icmp
      → UniqueTtl tcp
      → find_ttl t (by_ttl fl icmp tcp) ≡ verdict (find_ttl t icmp) (find_ttl t tcp)
  unfolding by_ttl
  by_ttl-find t icmp tcp u w =
      add_tcp-find t (add_icmp fl [] icmp) tcp w
      ∙ ap (λ (o : Option (SuspectHop F)). later o (find_ttl t tcp))
          (add_icmp-find t [] icmp u
            ∙ ap (λ (o : Option (SuspectHop F)). first_of o (find_ttl t icmp)) (find_none t))
      ∙ both (find_ttl t icmp) (find_ttl t tcp)

  rank_merged-find :
      (t : ℤ) (ss : List (SuspectHop F))
      → UniqueTtl ss
      → find_ttl t (rank_merged fl ss) ≡ find_ttl t ss
  unfolding rank_merged insert_merged
  rank_merged-find t ss u = sort_by-find (outranks fl) t ss u

  -- The merged list, in whatever order Go ranges over the map, of two lists with one suspect at most
  -- for a TTL: it has a suspect at a TTL exactly if one of the lists has one there. That of one list
  -- alone is kept, named by its source; two are folded into one with the source "icmp+tcp" and the
  -- higher of the two confidences.
  pub merge_suspects-find :
      (order : List (SuspectHop F) → List (SuspectHop F)) (t : ℤ) (icmp tcp : List (SuspectHop F))
      → UniqueTtl icmp
      → UniqueTtl tcp
      → UniqueTtl (order (by_ttl fl icmp tcp))
      → ((u : ℤ) → find_ttl u (order (by_ttl fl icmp tcp)) ≡ find_ttl u (by_ttl fl icmp tcp))
      → find_ttl t (merge_suspects fl order icmp tcp) ≡ verdict (find_ttl t icmp) (find_ttl t tcp)
  unfolding merge_suspects
  merge_suspects-find order t icmp tcp u w once ranges =
      rank_merged-find t (order (by_ttl fl icmp tcp)) once ∙ ranges t ∙ by_ttl-find t icmp tcp u w
