-- ===== src/Agg/Merge/Find.antt =====
-- internal/agg/correlate.go: what a list of suspects, or the map that they are put in, has at a TTL.
use dropline.Prelude.{
  List, [], ◌∷◌, true, false, none, some, if◌then◌else◌, ◌≡◌, refl, sym, ap, ◌∙◌, arith, Bool-cases,
  inl, inr,
}
use dropline.Prelude.Int.{ℤ, eqb_ℤ, eq_of_parts}
use dropline.Agg.Correlate.{SuspectHop}
use dropline.Agg.Merge.{find_ttl, put_ttl}

eqb→eq : (a b : ℤ) → eqb_ℤ a b ≡ true → a ≡ b
eqb→eq a b h = eq_of_parts a b (ground arith)

pub apart_from : (r s t : ℤ) → eqb_ℤ r t ≡ true → eqb_ℤ r s ≡ false → eqb_ℤ s t ≡ false
apart_from r s t hit other = elim (Bool-cases (eqb_ℤ s t)) [
  | inr miss ↦ miss
  | inl both_hit ↦
      let e : t ≡ s = sym (eqb→eq s t both_hit) in
      let same : eqb_ℤ r s ≡ true = ap (λ (z : ℤ). eqb_ℤ r z) (sym e) ∙ hit in cc
]

module _ {F : Type 0} where
  -- No two suspects of a list have one TTL.
  abbrev pub UniqueTtl : List (SuspectHop F) → Type 0
  UniqueTtl [] = Unit {0}
  UniqueTtl (s ∷ ss) = (find_ttl s.ttl ss ≡ none) × UniqueTtl ss

  pub find_at :
      (t : ℤ) (s : SuspectHop F) (ss : List (SuspectHop F))
      → eqb_ℤ s.ttl t ≡ true
      → find_ttl t (s ∷ ss) ≡ some s
  unfolding find_ttl
  find_at t s ss h = rw h refl

  pub find_past :
      (t : ℤ) (s : SuspectHop F) (ss : List (SuspectHop F))
      → eqb_ℤ s.ttl t ≡ false
      → find_ttl t (s ∷ ss) ≡ find_ttl t ss
  unfolding find_ttl
  find_past t s ss h = rw h refl

  pub find_ttl-put_ttl :
      (t : ℤ) (s : SuspectHop F) (m : List (SuspectHop F))
      → find_ttl t (put_ttl s m) ≡ (if eqb_ℤ s.ttl t then some s else find_ttl t m)
  unfolding find_ttl put_ttl
  find_ttl-put_ttl t s [] = refl
  find_ttl-put_ttl t s (r ∷ m) =
      let ih = find_ttl-put_ttl t s m in
      elim (Bool-cases (eqb_ℤ r.ttl s.ttl)) [
        | inl same ↦ rw same (elim (Bool-cases (eqb_ℤ s.ttl t)) [
          | inl hit ↦ rw hit refl
          | inr miss ↦
              let past : eqb_ℤ r.ttl t ≡ false =
                ap (λ (z : ℤ). eqb_ℤ z t) (eqb→eq r.ttl s.ttl same) ∙ miss in
              rw (miss, past) refl
        ])
        | inr other ↦ rw other (elim (Bool-cases (eqb_ℤ s.ttl t)) [
          | inl hit ↦
              let past : eqb_ℤ r.ttl t ≡ false =
                ap (λ (z : ℤ). eqb_ℤ r.ttl z) (sym (eqb→eq s.ttl t hit)) ∙ other in
              rw (hit, past) (ih ∙ rw hit refl)
          | inr miss ↦ rw miss (elim (Bool-cases (eqb_ℤ r.ttl t)) [
            | inl at ↦ rw at refl
            | inr past ↦ rw past (ih ∙ rw miss refl)
          ])
        ])
      ]

  pub find-same :
      (t u : ℤ) (m : List (SuspectHop F)) → eqb_ℤ u t ≡ true → find_ttl u m ≡ find_ttl t m
  find-same t u m h = ap (λ (z : ℤ). find_ttl z m) (eqb→eq u t h)

  pub under :
      (t : ℤ) (s : SuspectHop F) (xs ys : List (SuspectHop F))
      → find_ttl t xs ≡ find_ttl t ys
      → find_ttl t (s ∷ xs) ≡ find_ttl t (s ∷ ys)
  under t s xs ys e = elim (Bool-cases (eqb_ℤ s.ttl t)) [
    | inl hit ↦ find_at t s xs hit ∙ sym (find_at t s ys hit)
    | inr miss ↦ find_past t s xs miss ∙ e ∙ sym (find_past t s ys miss)
  ]

  pub find_none : (t : ℤ) → find_ttl {F = F} t [] ≡ none
  unfolding find_ttl
  find_none t = refl

  pub absent_both :
      (t : ℤ) (r : SuspectHop F) (rs : List (SuspectHop F))
      → find_ttl t (r ∷ rs) ≡ none
      → (eqb_ℤ r.ttl t ≡ false) × (find_ttl t rs ≡ none)
  absent_both t r rs h = elim (Bool-cases (eqb_ℤ r.ttl t)) [
    | inl hit ↦ absurd (let e = find_at t r rs hit in cc)
    | inr miss ↦ (miss, sym (find_past t r rs miss) ∙ h)
  ]

  pub swap_past :
      (t : ℤ) (s r : SuspectHop F) (rs : List (SuspectHop F))
      → eqb_ℤ r.ttl t ≡ false
      → find_ttl t (s ∷ rs) ≡ find_ttl t (s ∷ r ∷ rs)
  swap_past t s r rs miss = under t s rs (r ∷ rs) (sym (find_past t r rs miss))
