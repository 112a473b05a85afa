-- ===== src/Probe/Flight/Balance.antt =====
-- internal/probe: the counters of the hops against the map of probes in flight. Every section that
-- changes one keeps the two in step, as long as a key in flight is not taken again.
use dropline.Prelude.{
  ℕ, zero, suc, ◌+◌, ◌≤◌, List, [], ◌∷◌, none, some, length, ◌==◌, if◌then◌else◌, ◌≡◌, refl, ap,
  arith, Bool-cases, inl, inr, ==_iff,
}
use dropline.Prelude.Int.{ℤ, ltb_ℤ}
use dropline.Prelude.Dict.{Dict, lookup, insert, erase, Unique, erase_absent}
use dropline.Probe.Flight.{Entry, modify, kept}

-- 1 for a hit.
abbrev pub one_if : ℕ → ℕ → ℕ
one_if a b = if a == b then 1 else 0

-- How often a number occurs in a list.
abbrev pub count : ℕ → List ℕ → ℕ
count t [] = 0
count t (x ∷ xs) = one_if x t + count t xs

-- The probes in flight with a TTL.
abbrev pub in_flight : ℕ → Dict Entry → ℕ
in_flight t [] = 0
in_flight t ((k, e) ∷ m) = one_if e.ttl t + in_flight t m

-- The TTLs of the probes in flight are those of n hops.
abbrev pub Within : ℕ → Dict Entry → Type 0
Within n [] = Unit {0}
Within n ((k, e) ∷ m) = (1 ≤ e.ttl) × (e.ttl ≤ n) × Within n m

pub in_flight-insert :
    (t key : ℕ) (e : Entry) (m : Dict Entry)
    → lookup key m ≡ none
    → in_flight t (insert key e m) ≡ one_if e.ttl t + in_flight t m
unfolding insert
in_flight-insert t key e m fresh =
    ap (λ (d : Dict Entry). one_if e.ttl t + in_flight t d) (erase_absent key m fresh)

pub in_flight-erase :
    (t key : ℕ) (e : Entry) (m : Dict Entry)
    → Unique m
    → lookup key m ≡ some e
    → in_flight t m ≡ one_if e.ttl t + in_flight t (erase key m)
unfolding lookup erase
in_flight-erase t key e [] u h = cc
in_flight-erase t key e ((j, d) ∷ m) u h = elim (Bool-cases (j == key)) [
  | inl hit ↦ rw hit (
      let same : d ≡ e = ground arith in
      let k : j ≡ key = (==_iff j key).0 hit in
      let gone : erase key m ≡ m = erase_absent key m (rw (← k) u.0) in rw (gone, same) refl)
  | inr miss ↦ rw miss (
      let h' : lookup key m ≡ some e = ground arith in
      omega (arith, in_flight-erase t key e m u.1 h'))
]

pub Within-lookup :
    (n key : ℕ) (e : Entry) (m : Dict Entry)
    → Within n m
    → lookup key m ≡ some e
    → (1 ≤ e.ttl) × (e.ttl ≤ n)
unfolding lookup
Within-lookup n key e [] w h = cc
Within-lookup n key e ((j, d) ∷ m) w h = ground (arith, Within-lookup n key e m)

pub Within-erase : (n key : ℕ) (m : Dict Entry) → Within n m → Within n (erase key m)
unfolding erase
Within-erase n key [] w = tt
Within-erase n key ((j, d) ∷ m) (a, b, w) = elim (Bool-cases (j == key)) [
  | inl hit ↦ rw hit (Within-erase n key m w)
  | inr miss ↦ rw miss (a, b, Within-erase n key m w)
]

pub Within-kept : (n : ℕ) (cutoff : ℤ) (m : Dict Entry) → Within n m → Within n (kept cutoff m)
unfolding kept
Within-kept n cutoff [] w = tt
Within-kept n cutoff ((j, d) ∷ m) (a, b, w) = elim (Bool-cases (ltb_ℤ d.sent_at cutoff)) [
  | inl old ↦ rw old (Within-kept n cutoff m w)
  | inr young ↦ rw young (a, b, Within-kept n cutoff m w)
]

lookup-kept :
    (key : ℕ) (cutoff : ℤ) (m : Dict Entry)
    → lookup key m ≡ none
    → lookup key (kept cutoff m) ≡ none
unfolding lookup kept
lookup-kept key cutoff [] h = refl
lookup-kept key cutoff ((j, d) ∷ m) h = ground (arith, lookup-kept key cutoff m)

pub Unique-kept : (cutoff : ℤ) (m : Dict Entry) → Unique m → Unique (kept cutoff m)
unfolding kept
Unique-kept cutoff [] u = tt
Unique-kept cutoff ((j, d) ∷ m) u = elim (Bool-cases (ltb_ℤ d.sent_at cutoff)) [
  | inl old ↦ rw old (Unique-kept cutoff m u.1)
  | inr young ↦ rw young (lookup-kept j cutoff m u.0, Unique-kept cutoff m u.1)
]

pub length-modify {ℓ} :
    {A : Type ℓ} (i : ℕ) (f : A → A) (hs : List A) → length (modify i f hs) ≡ length hs
unfolding modify
length-modify i f [] = refl
length-modify zero f (h ∷ hs) = refl
length-modify (suc i) f (h ∷ hs) = ap suc (length-modify i f hs)
