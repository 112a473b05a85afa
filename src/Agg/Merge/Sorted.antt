-- ===== src/Agg/Merge/Sorted.antt =====
-- internal/agg/correlate.go: both of its stable sorts of suspects, as insertions by a test of which
-- comes first. They move suspects, and take none away.
use dropline.Prelude.{
  List, [], ◌∷◌, Bool, false, none, if◌then◌else◌, ◌≡◌, refl, sym, ◌∙◌, arith, Bool-cases, inl, inr,
}
use dropline.Prelude.Int.{ℤ, eqb_ℤ}
use dropline.Agg.Correlate.{SuspectHop}
use dropline.Agg.Merge.{find_ttl}
use dropline.Agg.Merge.Find.{
  UniqueTtl, find_at, find_past, absent_both, under, swap_past, apart_from,
}

module _ {F : Type 0} (before : SuspectHop F → SuspectHop F → Bool) where
  abbrev pub insert_by : SuspectHop F → List (SuspectHop F) → List (SuspectHop F)
  insert_by s [] = s ∷ []
  insert_by s (r ∷ rs) = let rest = insert_by s rs in if before r s then r ∷ rest else s ∷ r ∷ rs

  abbrev pub sort_by : List (SuspectHop F) → List (SuspectHop F)
  sort_by [] = []
  sort_by (s ∷ ss) = insert_by s (sort_by ss)

  insert_by-find :
      (t : ℤ) (s : SuspectHop F) (rs : List (SuspectHop F))
      → find_ttl s.ttl rs ≡ none
      → find_ttl t (insert_by s rs) ≡ find_ttl t (s ∷ rs)
  insert_by-find t s [] h = refl
  insert_by-find t s (r ∷ rs) h =
      let (other, absent) = absent_both s.ttl r rs h in
      let ih = insert_by-find t s rs absent in
      elim (Bool-cases (before r s)) [
        | inr behind ↦ rw behind refl
        | inl first ↦ rw first (elim (Bool-cases (eqb_ℤ r.ttl t)) [
          | inl hit ↦
              let past : eqb_ℤ s.ttl t ≡ false = apart_from r.ttl s.ttl t hit other in
              find_at t r (insert_by s rs) hit
              ∙ sym (find_past t s (r ∷ rs) past ∙ find_at t r rs hit)
          | inr miss ↦ find_past t r (insert_by s rs) miss ∙ ih ∙ swap_past t s r rs miss
        ])
      ]

  insert_by-UniqueTtl :
      (s : SuspectHop F) (rs : List (SuspectHop F))
      → find_ttl s.ttl rs ≡ none
      → UniqueTtl rs
      → UniqueTtl (insert_by s rs)
  insert_by-UniqueTtl s [] absent u = (absent, tt)
  insert_by-UniqueTtl s (r ∷ rs) absent (once, u) =
      let (other, left) = absent_both s.ttl r rs absent in
      let ih = insert_by-UniqueTtl s rs left u in
      elim (Bool-cases (before r s)) [
        | inr behind ↦ rw behind (absent, (once, u))
        | inl first ↦ rw first (
          insert_by-find r.ttl s rs left
              ∙ find_past r.ttl s rs (let h = other in ground arith)
              ∙ once,
          ih,
        )
      ]

  pub sort_by-find :
      (t : ℤ) (ss : List (SuspectHop F)) → UniqueTtl ss → find_ttl t (sort_by ss) ≡ find_ttl t ss
  sort_by-find t [] u = refl
  sort_by-find t (s ∷ ss) (absent, u) =
      insert_by-find t s (sort_by ss) (sort_by-find s.ttl ss u ∙ absent)
      ∙ under t s (sort_by ss) ss (sort_by-find t ss u)

  pub sort_by-UniqueTtl : (ss : List (SuspectHop F)) → UniqueTtl ss → UniqueTtl (sort_by ss)
  sort_by-UniqueTtl [] u = tt
  sort_by-UniqueTtl (s ∷ ss) (absent, u) =
      insert_by-UniqueTtl s (sort_by ss) (sort_by-find s.ttl ss u ∙ absent) (sort_by-UniqueTtl ss u)
