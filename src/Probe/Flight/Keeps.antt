-- ===== src/Probe/Flight/Keeps.antt =====
-- internal/probe: every critical section of a prober keeps its counters, its map and its terminus
-- in step.
use dropline.Prelude.{
  ℕ, suc, ◌+◌, ◌-◌, ◌≤◌, String, Bool, true, Option, none, some, length, if◌then◌else◌, ◌≡◌, refl,
  sym, subst, ◌∙◌, arith, Bool-cases, Option-cases, some_eq, inl, inr,
}
use dropline.Prelude.Int.{ℤ}
use dropline.Prelude.Dict.{lookup, insert, erase, Unique, insert-Unique, erase-Unique}
use dropline.Prelude.Floats.{Floats}
use dropline.Probe.HopState.{HopState, Reply}
use dropline.Probe.Flight.{
  Entry, Flight, in_table, modify, hop_sent, hop_unsent, at_ttl, register, nearer, prune,
  hop_replied, credit, settle, rollback_probe, record_terminus,
}
use dropline.Probe.Flight.Balance.{
  one_if, in_flight, Within, in_flight-insert, in_flight-erase, Within-lookup, Within-erase,
  Within-kept, Unique-kept, length-modify,
}
use dropline.Probe.Flight.Tally.{
  Balanced, Balanced-agree, modify-Balanced, give_up-Balanced, length-give_up, Tallied,
  Tallied-sent, Tallied-unsent, Tallied-replied,
}

-- With so many probes sent for each TTL, and n hops: the counters of a hop are the probes sent for
-- it and those of the map that are in flight for it, and its replies are at most the others; the
-- map has one entry for a key; and the terminus, once known, is a TTL of the table.
pub record IsBalanced {F : Type 0} (n : ℕ) (sends : ℕ → ℕ) (p : Flight F) : Type 0 where
  pub hop_count : length p.hops ≡ n
  pub unique : Unique p.inflight
  pub within : Within n p.inflight
  pub balanced : Balanced sends (λ t. in_flight t p.inflight) 1 p.hops
  pub near : p.terminus ≤ n

pub in_table-le : (ttl n : ℕ) → in_table ttl n ≡ true → (1 ≤ ttl) × (ttl ≤ n)
unfolding in_table
in_table-le ttl n h = ground arith

pub le-in_table : (ttl n : ℕ) → 1 ≤ ttl → ttl ≤ n → in_table ttl n ≡ true
unfolding in_table
le-in_table ttl n lo hi = ground arith

module _ {F : Type 0} {n : ℕ} {sends : ℕ → ℕ} where
  registered-IsBalanced :
      (key ttl : ℕ) (now : ℤ) (p : Flight F)
      → IsBalanced n sends p
      → lookup key p.inflight ≡ none
      → 1 ≤ ttl
      → ttl ≤ n
      → IsBalanced n
          (λ t. one_if ttl t + sends t)
          (record p {
            inflight = insert key (record { ttl = ttl; sent_at = now }) p.inflight;
            hops = modify (ttl - 1) hop_sent p.hops;
          })
  unfolding insert
  registered-IsBalanced key ttl now p v fresh lo hi =
      let e : Entry = record { ttl = ttl; sent_at = now } in
      let flying = λ (t : ℕ). in_flight t p.inflight in
      let add = λ (t : ℕ). in_flight-insert t key e p.inflight fresh in
      record {
        hop_count = length-modify (ttl - 1) hop_sent p.hops ∙ v.hop_count;
        unique = insert-Unique key e p.inflight v.unique;
        within = (lo, hi, Within-erase n key p.inflight v.within);
        balanced =
            modify-Balanced hop_sent sends _ flying _ ttl 1 (ttl - 1) p.hops (omega arith)
              (λ h th.
                subst (λ (k : ℕ). Tallied (one_if ttl ttl + sends ttl) k (hop_sent h))
                  (let a = add ttl in ground arith)
                  (subst (λ (k : ℕ). Tallied k (suc (flying ttl)) (hop_sent h))
                    (let one : one_if ttl ttl ≡ 1 = ground arith in omega arith)
                    (Tallied-sent (sends ttl) (flying ttl) h th)))
              (λ t ne. (ground arith, let a = add t in ground arith)) v.balanced;
        near = v.near;
      }

  -- A probe is registered under a key that is not in flight: one more is sent.
  pub register-IsBalanced :
      (key ttl : ℕ) (now : ℤ) (p : Flight F) {p' : Flight F}
      → IsBalanced n sends p
      → lookup key p.inflight ≡ none
      → register key ttl now p ≡ some p'
      → IsBalanced n (λ t. one_if ttl t + sends t) p'
  unfolding register
  register-IsBalanced key ttl now p v fresh done =
      elim (Bool-cases (in_table ttl (length p.hops))) [
        | inr out ↦ cc
        | inl inside ↦
            let (lo, hi) = in_table-le ttl (length p.hops) inside in
            subst (IsBalanced n (λ t. one_if ttl t + sends t)) (some_eq (ground arith)) (
              registered-IsBalanced key ttl now p v fresh lo
                (subst (λ (m : ℕ). ttl ≤ m) v.hop_count hi))
      ]

  -- The pruning takes probes off the map and off their hops alike.
  pub prune-IsBalanced :
      (cutoff : ℤ) (p : Flight F) → IsBalanced n sends p → IsBalanced n sends (prune cutoff p)
  unfolding prune
  prune-IsBalanced cutoff p v =
      let m = p.inflight in
      record {
        hop_count = length-give_up cutoff m p.hops ∙ v.hop_count;
        unique = Unique-kept cutoff m v.unique;
        within = Within-kept n cutoff m v.within;
        balanced =
            Balanced-agree sends sends _ _ 1 _ (λ t lt. (refl, omega arith))
              (give_up-Balanced cutoff sends (λ t. 0) m p.hops
                (subst (λ (k : ℕ). Within k m) (sym v.hop_count) v.within)
                (Balanced-agree sends sends _ _ 1 p.hops (λ t lt. (refl, omega arith)) v.balanced));
        near = v.near;
      }

  -- The entry of a key leaves the map, and its hop takes a step that settles one probe.
  taken :
      (key ttl terminus : ℕ) (e : Entry) (f : HopState F → HopState F) (p : Flight F)
      → IsBalanced n sends p
      → lookup key p.inflight ≡ some e
      → e.ttl ≡ ttl
      → ((s k : ℕ) (h : HopState F) → Tallied s (suc k) h → Tallied s k (f h))
      → terminus ≤ n
      → IsBalanced n sends (record p {
        inflight = erase key p.inflight;
        hops = modify (ttl - 1) f p.hops;
        terminus = terminus;
      })
  taken key ttl terminus e f p v found same step near =
      let flying = λ (t : ℕ). in_flight t p.inflight in
      let left = λ (t : ℕ). in_flight t (erase key p.inflight) in
      let part = λ (t : ℕ). in_flight-erase t key e p.inflight v.unique found in
      let (lo, hi) = Within-lookup n key e p.inflight v.within found in
      record {
        hop_count = length-modify (ttl - 1) f p.hops ∙ v.hop_count;
        unique = erase-Unique key p.inflight v.unique;
        within = Within-erase n key p.inflight v.within;
        balanced =
            modify-Balanced f sends sends flying left ttl 1 (ttl - 1) p.hops (omega arith)
              (λ h th.
                step (sends ttl) (left ttl) h (
                  subst (λ (k : ℕ). Tallied (sends ttl) k h) (let a = part ttl in ground arith) th))
              (λ t ne. (refl, let a = part t in ground arith)) v.balanced;
        near = near;
      }

  -- A probe that never went out is taken back: one less is sent.
  pub rollback-IsBalanced :
      (key ttl : ℕ) (e : Entry) (p : Flight F)
      → IsBalanced n (λ t. one_if ttl t + sends t) p
      → lookup key p.inflight ≡ some e
      → e.ttl ≡ ttl
      → IsBalanced n sends (rollback_probe key ttl p)
  unfolding rollback_probe at_ttl
  rollback-IsBalanced key ttl e p v found same =
      let flying = λ (t : ℕ). in_flight t p.inflight in
      let left = λ (t : ℕ). in_flight t (erase key p.inflight) in
      let part = λ (t : ℕ). in_flight-erase t key e p.inflight v.unique found in
      let (lo, hi) = Within-lookup n key e p.inflight v.within found in
      let inside : in_table ttl (length p.hops) ≡ true =
        le-in_table ttl (length p.hops) (omega arith) (let c = v.hop_count in omega arith) in
      rw (found, rollback_probe, inside)
        (record {
          hop_count = length-modify (ttl - 1) hop_unsent p.hops ∙ v.hop_count;
          unique = erase-Unique key p.inflight v.unique;
          within = Within-erase n key p.inflight v.within;
          balanced =
              modify-Balanced hop_unsent _ sends flying left ttl 1 (ttl - 1) p.hops (omega arith)
                (λ h th. Tallied-unsent (sends ttl) (left ttl) h (
                  subst (λ (k : ℕ). Tallied (suc (sends ttl)) k h)
                    (let a = part ttl in ground arith)
                    (subst (λ (k : ℕ). Tallied k (flying ttl) h)
                      (let one : one_if ttl ttl ≡ 1 = ground arith in omega arith) th)))
                (λ t ne. (ground arith, let a = part t in ground arith)) v.balanced;
          near = v.near;
        })

  module _ (fl : Floats F) where
    credit-IsBalanced :
        (key ttl : ℕ) (e : Entry) (r : Reply F) (p : Flight F)
        → IsBalanced n sends p
        → lookup key p.inflight ≡ some e
        → e.ttl ≡ ttl
        → IsBalanced n sends (credit fl ttl r (record p { inflight = erase key p.inflight }))
    unfolding credit
    credit-IsBalanced key ttl e r p v found same =
        let (lo, hi) = Within-lookup n key e p.inflight v.within found in
        let inside : in_table ttl (length p.hops) ≡ true =
          le-in_table ttl (length p.hops) (omega arith) (let c = v.hop_count in omega arith) in
        rw inside (
          taken key ttl (if r.terminus then nearer ttl p.terminus else p.terminus) e
            (hop_replied fl r) p v found same (Tallied-replied fl r)
            (let b = v.near in unfold nearer in ground arith))

    -- A reply, whatever it claims to answer.
    pub settle-IsBalanced :
        (key : ℕ) (from : Option String) (now : ℤ) (is_echo : Bool) (p : Flight F)
        → IsBalanced n sends p
        → IsBalanced n sends (settle fl key from now is_echo p)
    unfolding settle
    settle-IsBalanced key from now is_echo p v = elim (Option-cases (lookup key p.inflight)) [
      | inl absent ↦ rw (absent, settle) v
      | inr (e, found) ↦ rw (found, settle) (credit-IsBalanced key e.ttl e _ p v found refl)
    ]

    -- A connection that reached the destination, whether its probe is still in flight or not.
    pub record_terminus-IsBalanced :
        (key ttl : ℕ) (from : Option String) (rtt : F) (p : Flight F)
        → IsBalanced n sends p
        → ((e : Entry) → lookup key p.inflight ≡ some e → e.ttl ≡ ttl)
        → IsBalanced n sends (record_terminus fl key ttl from rtt p)
    unfolding record_terminus
    record_terminus-IsBalanced key ttl from rtt p v own =
        elim (Option-cases (lookup key p.inflight)) [
          | inl absent ↦ rw (absent, record_terminus) v
          | inr (e, found) ↦
              rw (found, record_terminus) (credit-IsBalanced key ttl e _ p v found (own e found))
        ]
