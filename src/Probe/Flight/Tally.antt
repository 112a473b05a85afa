-- ===== src/Probe/Flight/Tally.antt =====
-- internal/probe: the counters of the hops against the probes sent and in flight, hop by hop.
use dropline.Prelude.{
  ℕ, zero, suc, ◌+◌, ◌-◌, ◌≤◌, ◌≢◌, List, [], ◌∷◌, length, ◌≡◌, refl, sym, ap, subst, ◌∙◌, arith,
  Bool-cases, inl, inr,
}
use dropline.Prelude.Int.{ℤ, pos, eqb_ℤ, ltb_ℤ, ◌+ℤ◌, ◌-ℤ◌}
use dropline.Prelude.Dict.{Dict}
use dropline.Prelude.Floats.{Floats}
use dropline.Probe.HopState.{HopState, Reply, record_reply, seed, fold}
use dropline.Probe.Flight.{
  Entry, in_table, modify, hop_sent, hop_unsent, hop_settled, at_ttl, kept, give_up, hop_replied,
}
use dropline.Probe.Flight.Balance.{one_if, in_flight, length-modify, Within}

plus_one : (n : ℕ) → pos n +ℤ pos 1 ≡ pos (suc n)
unfolding ◌+ℤ◌
plus_one n = ground arith

minus_one : (n : ℕ) → pos (suc n) -ℤ pos 1 ≡ pos n
unfolding ◌-ℤ◌
minus_one n = ground arith

module _ {F : Type 0} where
  -- A hop with so many probes sent and in flight: the replies that it counts and the probes in
  -- flight are no more than those sent.
  abbrev pub Tallied : ℕ → ℕ → HopState F → Type 0
  Tallied s k h = (r : ℕ) × (h.sent ≡ pos s) × (h.recv ≡ pos r) × (h.inflight ≡ pos k) × (r + k ≤ s)

  -- The hops from a TTL on, each with what is sent and in flight for it.
  abbrev pub Balanced : (sends flying : ℕ → ℕ) → ℕ → List (HopState F) → Type 0
  Balanced sends flying ttl [] = Unit {0}
  Balanced sends flying ttl (h ∷ hs) =
      Tallied (sends ttl) (flying ttl) h × Balanced sends flying (suc ttl) hs

  pub Tallied-sent :
      (s k : ℕ) (h : HopState F) → Tallied s k h → Tallied (suc s) (suc k) (hop_sent h)
  unfolding hop_sent
  Tallied-sent s k h (r, sent, recv, fly, le) = (
    r,
    ap (λ (z : ℤ). z +ℤ pos 1) sent ∙ plus_one s,
    recv,
    ap (λ (z : ℤ). z +ℤ pos 1) fly ∙ plus_one k,
    omega arith,
  )

  pub Tallied-unsent :
      (s k : ℕ) (h : HopState F) → Tallied (suc s) (suc k) h → Tallied s k (hop_unsent h)
  unfolding hop_unsent
  Tallied-unsent s k h (r, sent, recv, fly, le) = (
    r,
    ap (λ (z : ℤ). z -ℤ pos 1) sent ∙ minus_one s,
    recv,
    ap (λ (z : ℤ). z -ℤ pos 1) fly ∙ minus_one k,
    omega arith,
  )

  pub Tallied-settled :
      (s k : ℕ) (h : HopState F) → Tallied s (suc k) h → Tallied s k (hop_settled h)
  unfolding hop_settled
  Tallied-settled s k h (r, sent, recv, fly, le) =
      (r, sent, recv, ap (λ (z : ℤ). z -ℤ pos 1) fly ∙ minus_one k, omega arith)

  -- The counts may be written in another way, for the TTLs of the table.
  pub Balanced-agree :
      (s s' k k' : ℕ → ℕ) (ttl : ℕ) (hs : List (HopState F))
      → ((t : ℕ) → ttl ≤ t → (s t ≡ s' t) × (k t ≡ k' t))
      → Balanced s k ttl hs
      → Balanced s' k' ttl hs
  Balanced-agree s s' k k' ttl [] same b = tt
  Balanced-agree s s' k k' ttl (h ∷ hs) same ((r, sent, recv, fly, le), b) =
      let (es, ek) = same ttl (omega arith) in
      (
        (r, sent ∙ ap pos es, recv, fly ∙ ap pos ek, omega arith),
        Balanced-agree s s' k k' (suc ttl) hs (λ t lt. same t (omega arith)) b,
      )

  -- A change of one hop that moves its counts, and those of no other hop.
  pub modify-Balanced :
      (f : HopState F → HopState F) (s s' k k' : ℕ → ℕ) (ttl low i : ℕ) (hs : List (HopState F))
      → low + i ≡ ttl
      → ((h : HopState F) → Tallied (s ttl) (k ttl) h → Tallied (s' ttl) (k' ttl) (f h))
      → ((t : ℕ) → t ≢ ttl → (s t ≡ s' t) × (k t ≡ k' t))
      → Balanced s k low hs
      → Balanced s' k' low (modify i f hs)
  unfolding modify
  modify-Balanced f s s' k k' ttl low i [] e step same b = tt
  modify-Balanced f s s' k k' ttl low zero (h ∷ hs) e step same (th, b) =
      let here : ttl ≡ low = omega arith in
      (
        subst (λ (t : ℕ). Tallied (s' t) (k' t) (f h)) here
            (step h (subst (λ (t : ℕ). Tallied (s t) (k t) h) (sym here) th)),
        Balanced-agree s s' k k' (suc low) hs (λ t lt. same t (λ same_ttl. omega arith)) b,
      )
  modify-Balanced f s s' k k' ttl low (suc i) (h ∷ hs) e step same ((r, sent, recv, fly, le), b) =
      let (es, ek) = same low (λ same_ttl. omega arith) in
      (
        (r, sent ∙ ap pos es, recv, fly ∙ ap pos ek, omega arith),
        modify-Balanced f s s' k k' ttl (suc low) i hs (omega arith) step same b,
      )

  pub at_ttl_inside :
      (ttl : ℕ) (f : HopState F → HopState F) (hs : List (HopState F))
      → 1 ≤ ttl
      → ttl ≤ length hs
      → at_ttl ttl f hs ≡ modify (ttl - 1) f hs
  unfolding at_ttl in_table
  at_ttl_inside ttl f hs lo hi = ground arith

  pub length-at_ttl :
      (ttl : ℕ) (f : HopState F → HopState F) (hs : List (HopState F))
      → length (at_ttl ttl f hs) ≡ length hs
  unfolding at_ttl
  length-at_ttl ttl f hs = ground (arith, length-modify (ttl - 1) f hs)

  pub length-give_up :
      (cutoff : ℤ) (m : Dict Entry) (hs : List (HopState F))
      → length (give_up cutoff m hs) ≡ length hs
  unfolding give_up
  length-give_up cutoff [] hs = refl
  length-give_up cutoff ((k, e) ∷ m) hs = elim (Bool-cases (ltb_ℤ e.sent_at cutoff)) [
    | inl old ↦
        rw old (
          length-give_up cutoff m (at_ttl e.ttl hop_settled hs)
          ∙ length-at_ttl e.ttl hop_settled hs)
    | inr young ↦ rw young (length-give_up cutoff m hs)
  ]

  -- One probe of a TTL is settled.
  settle_one :
      (s k : ℕ → ℕ) (ttl : ℕ) (hs : List (HopState F))
      → 1 ≤ ttl
      → ttl ≤ length hs
      → Balanced s (λ t. one_if ttl t + k t) 1 hs
      → Balanced s k 1 (at_ttl ttl hop_settled hs)
  settle_one s k ttl hs lo hi b = rw (at_ttl_inside ttl hop_settled hs lo hi) (
      modify-Balanced hop_settled s s (λ t. one_if ttl t + k t) k ttl 1 (ttl - 1) hs (omega arith)
        (λ h th.
          Tallied-settled (s ttl) (k ttl) h
            (subst (λ (n : ℕ). Tallied (s ttl) n h) (ground arith) th))
        (λ t ne. (refl, ground arith)) b)

  -- The pruning takes from each hop what it takes from the map, whatever else is in flight.
  pub give_up-Balanced :
      (cutoff : ℤ) (s x : ℕ → ℕ) (m : Dict Entry) (hs : List (HopState F))
      → Within (length hs) m
      → Balanced s (λ t. in_flight t m + x t) 1 hs
      → Balanced s (λ t. in_flight t (kept cutoff m) + x t) 1 (give_up cutoff m hs)
  unfolding kept give_up
  give_up-Balanced cutoff s x [] hs w b = b
  give_up-Balanced cutoff s x ((j, e) ∷ m) hs (lo, hi, w) b =
      elim (Bool-cases (ltb_ℤ e.sent_at cutoff)) [
        | inl old ↦ rw old (
            let hs' = at_ttl e.ttl hop_settled hs in
            give_up-Balanced cutoff s x m hs'
              (subst (λ (n : ℕ). Within n m) (sym (length-at_ttl e.ttl hop_settled hs)) w)
              (settle_one s (λ t. in_flight t m + x t) e.ttl hs lo hi
                (Balanced-agree s s _ _ 1 hs (λ t lt. (refl, omega arith)) b)))
        | inr young ↦ rw young (
            Balanced-agree s s _ _ 1 _ (λ t lt. (refl, omega arith))
              (give_up-Balanced cutoff s (λ t. one_if e.ttl t + x t) m hs w
                (Balanced-agree s s _ _ 1 hs (λ t lt. (refl, omega arith)) b)))
      ]

module _ {F : Type 0} (fl : Floats F) where
  pub Tallied-replied :
      (r : Reply F) (s k : ℕ) (h : HopState F)
      → Tallied s (suc k) h
      → Tallied s k (hop_replied fl r h)
  unfolding hop_replied hop_settled record_reply seed fold
  Tallied-replied r s k h (n, sent, recv, fly, le) =
      let one = ap (λ (z : ℤ). z +ℤ pos 1) recv ∙ plus_one n in
      let fly' = ap (λ (z : ℤ). z -ℤ pos 1) fly ∙ minus_one k in
      elim (Bool-cases (eqb_ℤ (h.recv +ℤ pos 1) (pos 1))) [
        | inl first ↦ (suc n, rw first sent, one, rw first fly', omega arith)
        | inr later ↦ (suc n, rw later sent, one, rw later fly', omega arith)
      ]
