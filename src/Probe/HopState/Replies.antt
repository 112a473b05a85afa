-- ===== src/Probe/HopState/Replies.antt =====
-- internal/probe/hopstats.go: a hop after all its replies.
use dropline.Prelude.{
  ℕ, suc, ◌+◌, String, List, [], ◌∷◌, Bool, true, false, ◌||◌, Option, none, some, All, length,
  if◌then◌else◌, ◌≡◌, refl, ap, ◌∙◌, arith,
}
use dropline.Prelude.Int.{ℤ, pos, eqb_ℤ, ◌+ℤ◌}
use dropline.Prelude.Floats.{Floats}
use dropline.Probe.HopState.{HopState, Reply, first_address, seed, fold, record_reply}

counts_up : (n : ℕ) → pos n +ℤ pos 1 ≡ pos (n + 1)
unfolding ◌+ℤ◌
counts_up n = ground arith

-- The address that a hop had, or else the first of those.
abbrev pub first_of : Option String → List String → Option String
first_of (some a) others = some a
first_of none [] = none
first_of none (a ∷ others) = some a

first_address-first_of :
    (addr from : Option String) (others : List String)
    → first_of (first_address addr from) others
      ≡ first_of addr (elim from [ none ↦ others | some a ↦ a ∷ others ])
unfolding first_address
first_address-first_of (some a) from others = refl
first_address-first_of none none others = refl
first_address-first_of none (some a) others = refl

nothing_new : (addr : Option String) → addr ≡ first_of addr []
nothing_new none = refl
nothing_new (some a) = refl

module _ {F : Type 0} where
  -- The addresses that replies came with, in their order.
  abbrev pub addresses : List (Reply F) → List String
  addresses [] = []
  addresses (r ∷ rs) = elim r.from [ none ↦ addresses rs | some a ↦ a ∷ addresses rs ]

  -- Whether some reply came from the destination.
  abbrev pub any_terminus : Bool → List (Reply F) → Bool
  any_terminus t [] = t
  any_terminus t (r ∷ rs) = any_terminus (r.terminus || t) rs

module _ {F : Type 0} (fl : Floats F) where
  unfoldable pub record_all : HopState F → List (Reply F) → HopState F
  record_all h [] = h
  record_all h (r ∷ rs) = record_all (record_reply fl h r) rs

  -- No reply was faster than best, or slower than worst.
  abbrev pub IsWithin : F → F → Reply F → Type 0
  IsWithin best worst r = (fl.lt r.rtt_ms best ≡ false) × (fl.lt worst r.rtt_ms ≡ false)

  columns :
      (h : HopState F) (rs : List (Reply F))
      → ((record_all h rs).addr ≡ first_of h.addr (addresses rs))
        × ((record_all h rs).terminus ≡ any_terminus h.terminus rs)
  unfolding record_all record_reply
  columns h [] = (nothing_new h.addr, refl)
  columns h (r ∷ rs) =
      let (a, t) = columns (record_reply fl h r) rs in
      (a ∙ first_address-first_of h.addr r.from (addresses rs), t)

  recv_all :
      (n : ℕ) (h : HopState F) (rs : List (Reply F))
      → h.recv ≡ pos n
      → (record_all h rs).recv ≡ pos (n + length rs)
  unfolding record_all record_reply
  recv_all n h [] e = e ∙ ap pos (omega arith)
  recv_all n h (r ∷ rs) e =
      recv_all (n + 1) (record_reply fl h r) rs (ap (λ (z : ℤ). z +ℤ pos 1) e ∙ counts_up n)
      ∙ ap pos (omega arith)

  recv_reply :
      (n : ℕ) (h : HopState F) (r : Reply F)
      → h.recv ≡ pos n
      → (record_reply fl h r).recv ≡ pos (n + 1)
  unfolding record_reply
  recv_reply n h r e = ap (λ (z : ℤ). z +ℤ pos 1) e ∙ counts_up n

  first_columns :
      (h : HopState F) (r : Reply F)
      → h.recv ≡ pos 0
      → ((record_reply fl h r).best ≡ r.rtt_ms) × ((record_reply fl h r).worst ≡ r.rtt_ms)
  unfolding record_reply seed
  first_columns h r e =
      let one : eqb_ℤ (h.recv +ℤ pos 1) (pos 1) ≡ true =
        ap (λ (z : ℤ). eqb_ℤ (z +ℤ pos 1) (pos 1)) e ∙ unfold ◌+ℤ◌ in refl in
      (rw one refl, rw one refl)

  later_columns :
      (n : ℕ) (h : HopState F) (r : Reply F)
      → h.recv ≡ pos (suc n)
      → ((record_reply fl h r).best ≡ (if fl.lt r.rtt_ms h.best then r.rtt_ms else h.best))
        × ((record_reply fl h r).worst ≡ (if fl.lt h.worst r.rtt_ms then r.rtt_ms else h.worst))
  unfolding record_reply fold
  later_columns n h r e =
      let more : eqb_ℤ (h.recv +ℤ pos 1) (pos 1) ≡ false =
        ap (λ (z : ℤ). eqb_ℤ (z +ℤ pos 1) (pos 1)) e ∙ unfold ◌+ℤ◌ in ground arith in
      (rw more refl, rw more refl)

  module _ (irrefl : (a : F) → fl.lt a a ≡ false)
      (trans : (a b c : F) → fl.lt a b ≡ true → fl.lt b c ≡ true → fl.lt a c ≡ true) where
    keeps_reply :
        (n : ℕ) (h : HopState F) (r x : Reply F)
        → h.recv ≡ pos (suc n)
        → IsWithin h.best h.worst x
        → IsWithin (record_reply fl h r).best (record_reply fl h r).worst x
    keeps_reply n h r x e (b, w) =
        let (best, worst) = later_columns n h r e in
        rw (best, worst)
          (
            ground (arith, b, trans x.rtt_ms r.rtt_ms h.best),
            ground (arith, w, trans h.worst r.rtt_ms x.rtt_ms),
          )

    own_reply :
        (n : ℕ) (h : HopState F) (r : Reply F)
        → h.recv ≡ pos (suc n)
        → IsWithin (record_reply fl h r).best (record_reply fl h r).worst r
    own_reply n h r e =
        let (best, worst) = later_columns n h r e in
        rw (best, worst) (ground (arith, irrefl r.rtt_ms), ground (arith, irrefl r.rtt_ms))

    keeps_all :
        (n : ℕ) (h : HopState F) (x : Reply F) (rs : List (Reply F))
        → h.recv ≡ pos (suc n)
        → IsWithin h.best h.worst x
        → IsWithin (record_all h rs).best (record_all h rs).worst x
    unfolding record_all
    keeps_all n h x [] e k = k
    keeps_all n h x (r ∷ rs) e k =
        keeps_all (suc n) (record_reply fl h r) x rs
          (recv_reply (suc n) h r e ∙ ap pos (omega arith)) (keeps_reply n h r x e k)

    every_reply :
        (n : ℕ) (h : HopState F) (rs : List (Reply F))
        → h.recv ≡ pos (suc n)
        → All (IsWithin (record_all h rs).best (record_all h rs).worst) rs
    unfolding record_all
    every_reply n h [] e = tt
    every_reply n h (r ∷ rs) e =
        let e' : (record_reply fl h r).recv ≡ pos (suc (suc n)) =
          recv_reply (suc n) h r e ∙ ap pos (omega arith) in
        (
          keeps_all (suc n) (record_reply fl h r) r rs e' (own_reply n h r e),
          every_reply (suc n) (record_reply fl h r) rs e',
        )

  -- After all replies of a hop that had none before, with floats whose order is irreflexive and
  -- transitive: the hop counts them all, has the address that it had, or else that of the first
  -- that came with one, is the terminus if it was or one came from the destination, and no reply was
  -- faster than its best time or slower than its worst.
  pub record_all_lem :
      (h : HopState F) (rs : List (Reply F))
      → ((a : F) → fl.lt a a ≡ false)
      → ((a b c : F) → fl.lt a b ≡ true → fl.lt b c ≡ true → fl.lt a c ≡ true)
      → h.recv ≡ pos 0
      → ((record_all h rs).recv ≡ pos (length rs))
        × ((record_all h rs).addr ≡ first_of h.addr (addresses rs))
        × ((record_all h rs).terminus ≡ any_terminus h.terminus rs)
        × All (IsWithin (record_all h rs).best (record_all h rs).worst) rs
  unfolding record_all
  record_all_lem h [] irrefl trans e = (e, nothing_new h.addr, refl, tt)
  record_all_lem h (r ∷ rs) irrefl trans e =
      let (a, t) = columns h (r ∷ rs) in
      let one = recv_reply 0 h r e in
      let (best, worst) = first_columns h r e in
      let own : IsWithin (record_reply fl h r).best (record_reply fl h r).worst r =
        rw (best, worst) (irrefl r.rtt_ms, irrefl r.rtt_ms) in
      (
        recv_all 0 h (r ∷ rs) e ∙ ap pos (omega arith),
        a,
        t,
        (
          keeps_all irrefl trans 0 (record_reply fl h r) r rs one own,
          every_reply irrefl trans 0 (record_reply fl h r) rs one,
        ),
      )
