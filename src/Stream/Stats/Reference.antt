-- ===== src/Stream/Stats/Reference.antt =====
-- What the accumulator of internal/stream/stats.go reports, as a function of the multiset of
-- packets alone: the order of arrival matters to `OutOfOrder` and to the bursts only.
use mathlib.Core.Path.{ap₂}
use dropline.Prelude.{
  ℕ, zero, suc, ◌+◌, ◌^◌, ◌≤◌, ◌<◌, max, List, [], ◌∷◌, length, contains, leb, ◌==◌, if◌then◌else◌,
  ◌≡◌, refl, sym, ap, ◌∙◌, subst, true, false, ◌||◌, arith, All, inl, inr, Bool-cases, leb→le,
  leb-false, ==_iff,
}
use dropline.Prelude.Counters.{add64}
use dropline.Stream.Stats.{
  Counts, no_counts, rejects, first_packet, in_order, late, account, observe_seq, observe_all,
  observe_seq_cases, max_acceptable_gap, max_seen_entries,
}
use dropline.Stream.Stats.Missing.{missing, Below, contains_above}
use dropline.Stream.Stats.Conservation.{
  Tracks, no_counts-Tracks, observe_seq-Tracks, length-observe_seq, observe_all-Tracks, grown,
  received, remember_room,
}

-- One behind the largest number of a list.
abbrev pub span : List ℕ → ℕ
span [] = 0
span (x ∷ xs) = max (x + 1) (span xs)

contains-lt : (n m : ℕ) (xs : List ℕ) → Below n xs → contains m xs ≡ true → m < n
contains-lt n m xs b h = elim (Bool-cases (leb n m)) [
  | inl e ↦ absurd (cc (contains_above n xs b m (leb→le _ _ e)))
  | inr e ↦ leb-false _ _ e
]

-- What one accepted packet does, whatever branch it takes.
record IsStep (c : Counts) (seq : ℕ) (c' : Counts) : Type 0 where
  expected : c'.expected_seq ≡ max c.expected_seq (seq + 1)
  total : c.recv + c.duplicates < 2 ^ 63 → c'.recv + c'.duplicates ≡ c.recv + c.duplicates + 1
  seen : (s : ℕ) → contains s c'.seen ≡ (seq == s || contains s c.seen)

duplicate-IsStep :
    (c : Counts) (seq : ℕ)
    → Tracks c
    → contains seq c.seen ≡ true
    → IsStep c seq (record c { duplicates = add64 c.duplicates 1 })
duplicate-IsStep c seq t d = record {
  expected = omega (arith, contains-lt c.expected_seq seq c.seen t.below d);
  total = λ h. omega arith;
  seen = λ s. ground (arith, d, ==_iff seq s);
}

account-IsStep : (c : Counts) (seq : ℕ) → Tracks c → IsStep c seq (account (grown c seq) seq)
unfolding account first_packet in_order late
account-IsStep c seq t = record {
  expected = ground (arith, t.top);
  total = λ h. ground arith;
  seen = λ s. unfold contains in ground arith;
}

-- Sequence numbers up to the gap limit pass both guards in any state.
accepted : (c : Counts) (seq : ℕ) → seq ≤ max_acceptable_gap → rejects c seq ≡ false
unfolding rejects
accepted c seq h = ground arith

observe_seq-IsStep :
    (c : Counts) (seq : ℕ)
    → Tracks c
    → length c.seen < max_seen_entries
    → seq ≤ max_acceptable_gap
    → IsStep c seq (observe_seq c seq)
observe_seq-IsStep c seq t room h = elim (observe_seq_cases c seq) [
  | inl (r, e) ↦ absurd (cc (accepted c seq h))
  | inr (inl (r, d, e)) ↦ subst (IsStep c seq) (sym e) (duplicate-IsStep c seq t d)
  | inr (inr (r, d, e)) ↦
      subst (IsStep c seq) (sym (e ∙ ap (λ b. account b seq) (remember_room c seq t room)))
        (account-IsStep c seq t)
]

-- The counters after packets that all pass the guards, from the state before them.
record IsRun (c : Counts) (seqs : List ℕ) (c' : Counts) : Type 0 where
  expected : c'.expected_seq ≡ max c.expected_seq (span seqs)
  total : c'.recv + c'.duplicates ≡ c.recv + c.duplicates + length seqs
  seen : (s : ℕ) → contains s c'.seen ≡ (contains s seqs || contains s c.seen)

observe_all-IsRun :
    (c : Counts) (seqs : List ℕ)
    → Tracks c
    → c.recv + c.duplicates + length seqs < 2 ^ 63
    → length c.seen + length seqs ≤ max_seen_entries
    → All (λ s. s ≤ max_acceptable_gap) seqs
    → IsRun c seqs (observe_all c seqs)
unfolding observe_all
observe_all-IsRun c [] t small room ok = record {
  expected = omega arith;
  total = omega arith;
  seen = λ s. unfold contains in refl;
}
observe_all-IsRun c (seq ∷ seqs) t small room (ok, oks) =
    let step = observe_seq-IsStep c seq t (omega arith) ok in
    let run =
      observe_all-IsRun (observe_seq c seq) seqs (observe_seq-Tracks c seq t (omega arith))
        (omega (arith, step.total (omega arith))) (omega (arith, length-observe_seq c seq)) oks in
    record {
      expected = omega (arith, run.expected, step.expected);
      total = omega (arith, run.total, step.total (omega arith));
      seen = λ s.
          run.seen s
          ∙ ap (λ b. contains s seqs || b) (step.seen s)
          ∙ unfold contains in ground arith;
    }

-- `missing` reads a list only by what it contains.
pub missing-eq :
    (n : ℕ) (xs ys : List ℕ)
    → ((s : ℕ) → contains s xs ≡ contains s ys)
    → missing n xs ≡ missing n ys
missing-eq zero xs ys h = refl
missing-eq (suc n) xs ys h = ap₂ ◌+◌ (missing-eq n xs ys h) (ap (λ b. if b then 0 else 1) (h n))

-- The counters in closed form: of at most 2 ^ 18 packets with sequence numbers up to 2 ^ 20, in any
-- order and with any repetitions, `expectedSeq` is one behind the largest, `lost` counts the
-- numbers below it that no packet carries, `recv` those that one does, and `duplicates` the
-- packets beyond.
pub reference :
    (seqs : List ℕ)
    → length seqs ≤ max_seen_entries
    → All (λ s. s ≤ max_acceptable_gap) seqs
    → ((received seqs).expected_seq ≡ span seqs)
      × ((received seqs).lost ≡ missing (span seqs) seqs)
      × ((received seqs).recv + missing (span seqs) seqs ≡ span seqs)
      × ((received seqs).recv + (received seqs).duplicates ≡ length seqs)
reference seqs room ok =
    let t = observe_all-Tracks no_counts seqs no_counts-Tracks (omega arith) in
    let run = observe_all-IsRun no_counts seqs no_counts-Tracks (omega arith) (omega arith) ok in
    let expected : (received seqs).expected_seq ≡ span seqs = omega (arith, run.expected) in
    let lost : (received seqs).lost ≡ missing (span seqs) seqs =
      t.lost_missing
      ∙ ap (λ n. missing n (received seqs).seen) expected
      ∙ missing-eq (span seqs) (received seqs).seen seqs
          (λ s. run.seen s ∙ unfold contains in ground arith) in
    (expected, lost, omega (arith, lost, expected, t.conserved), omega (arith, run.total))
