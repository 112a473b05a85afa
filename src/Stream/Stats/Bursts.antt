-- ===== src/Stream/Stats/Bursts.antt =====
-- The loss-burst histogram of internal/stream/stats.go.
use dropline.Prelude.{
  ℕ, ◌+◌, ◌*◌, ◌-◌, ◌^◌, ◌≤◌, ◌<◌, List, [], ◌∷◌, length, contains, ltb, leb, if◌then◌else◌, ◌≡◌,
  sym, ap, ◌∙◌, subst, false, arith, ◌⊎◌, inl, inr, Bool-cases, leb→le, leb-false,
}
use dropline.Stream.Stats.{
  BurstBuckets, count_burst, record_burst, Counts, no_counts, first_packet, in_order, late, account,
  observe_seq, observe_all, observe_seq_cases, account-first, account-in_order, account-late,
  max_seen_entries,
}
use dropline.Stream.Stats.Missing.{missing-cons}
use dropline.Stream.Stats.Conservation.{
  Tracks, no_counts-Tracks, observe_seq-Tracks, length-observe_seq, grown, remember_room, received,
  rolled_back, unrejected,
}

-- How many runs the histogram holds.
abbrev pub runs : BurstBuckets → ℕ
runs b = b.one + b.two + b.three9 + b.ten99 + b.hundred_up

-- The fewest packets that those runs can have lost.
abbrev pub least : BurstBuckets → ℕ
least b = b.one + 2 * b.two + 3 * b.three9 + 10 * b.ten99 + 100 * b.hundred_up

-- The longest run falls into the highest bucket that is not empty.
pub record IsHistogram (b : BurstBuckets) : Type 0 where
  pub hundreds : (b.hundred_up ≡ 0) ⊎ (100 ≤ b.max)
  pub tens : (b.ten99 ≡ 0) ⊎ (10 ≤ b.max)
  pub threes : (b.three9 ≡ 0) ⊎ (3 ≤ b.max)
  pub twos : (b.two ≡ 0) ⊎ (2 ≤ b.max)
  pub ones : (b.one ≡ 0) ⊎ (1 ≤ b.max)
  pub max_hundreds : (b.max < 100) ⊎ (0 < b.hundred_up)
  pub max_tens : (b.max < 10) ⊎ (0 < b.ten99 + b.hundred_up)
  pub max_threes : (b.max < 3) ⊎ (0 < b.three9 + b.ten99 + b.hundred_up)
  pub max_twos : (b.max < 2) ⊎ (0 < b.two + b.three9 + b.ten99 + b.hundred_up)
  pub max_ones : (b.max < 1) ⊎ (0 < runs b)

module _ (b : BurstBuckets) (n : ℕ) (small : runs b < 2 ^ 63) where
  pub record_burst-IsHistogram : IsHistogram b → IsHistogram (record_burst b n)
  unfolding record_burst count_burst
  record_burst-IsHistogram v = ground arith

  -- A run adds one to the histogram, at least its class to `least`, and raises `max` to it.
  pub runs-record_burst : runs (record_burst b n) ≤ runs b + 1
  unfolding record_burst count_burst
  runs-record_burst = ground arith

  pub least-record_burst : least (record_burst b n) ≤ least b + n
  unfolding record_burst count_burst
  least-record_burst = ground arith

  pub max-record_burst : (record_burst b n).max ≡ (if ltb b.max n then n else b.max)
  unfolding record_burst count_burst
  max-record_burst = ground arith

-- The histogram against the counters: the runs recorded make up `lost` and what has since been
-- recovered out of order.
pub record IsBursty (c : Counts) : Type 0 where
  pub histogram : IsHistogram c.bursts
  pub runs_le : runs c.bursts ≤ c.recv
  pub late_le : c.out_of_order ≤ c.recv
  pub least_le : least c.bursts ≤ c.lost + c.out_of_order
  pub max_le : c.bursts.max ≤ c.lost + c.out_of_order

no_counts-IsBursty : IsBursty no_counts
no_counts-IsBursty = record {
  histogram = omega arith;
  runs_le = omega arith;
  late_le = omega arith;
  least_le = omega arith;
  max_le = omega arith;
}

module _ (c : Counts) (seq : ℕ) (t : Tracks c) (v : IsBursty c)
    (room : length c.seen < max_seen_entries) (small : seq < 2 ^ 63) where
  first_packet-IsBursty : c.seen_any ≡ false → IsBursty (first_packet (grown c seq) seq)
  unfolding first_packet
  first_packet-IsBursty e =
      let few : runs c.bursts < 2 ^ 63 = omega (arith, t.recv_len) in
      let empty : c.expected_seq ≡ 0 = ground (arith, t.top) in
      record {
        histogram = record_burst-IsHistogram c.bursts seq few v.histogram;
        runs_le = omega (arith, runs-record_burst c.bursts seq few);
        late_le = omega arith;
        least_le = omega (arith, least-record_burst c.bursts seq few, t.conserved);
        max_le = ground (arith, max-record_burst c.bursts seq few, t.conserved);
      }

  in_order-IsBursty : c.expected_seq ≤ seq → IsBursty (in_order (grown c seq) seq)
  unfolding in_order
  in_order-IsBursty h =
      let few : runs c.bursts < 2 ^ 63 = omega (arith, t.recv_len) in
      let gap = seq - c.expected_seq in
      record {
        histogram = record_burst-IsHistogram c.bursts gap few v.histogram;
        runs_le = omega (arith, runs-record_burst c.bursts gap few);
        late_le = omega arith;
        least_le = omega (arith, least-record_burst c.bursts gap few, t.conserved);
        max_le = ground (arith, max-record_burst c.bursts gap few, t.conserved);
      }

  late-IsBursty : contains seq c.seen ≡ false → seq < c.expected_seq → IsBursty (late (grown c seq))
  unfolding late
  late-IsBursty fresh h =
      let some_lost : 0 < c.lost =
        omega (arith, t.lost_missing, missing-cons c.expected_seq seq c.seen h fresh) in
      let back = rolled_back c.lost some_lost t.lost_i64 in
      record {
        histogram = v.histogram;
        runs_le = omega arith;
        late_le = omega (arith, t.recv_len);
        least_le = omega (arith, back, t.recv_len);
        max_le = omega (arith, back, t.recv_len);
      }

  account-IsBursty : contains seq c.seen ≡ false → IsBursty (account (grown c seq) seq)
  account-IsBursty fresh = elim (Bool-cases c.seen_any) [
    | inr e ↦ subst IsBursty (sym (account-first (grown c seq) seq e)) (first_packet-IsBursty e)
    | inl e ↦ elim (Bool-cases (leb c.expected_seq seq)) [
      | inl h ↦
          subst IsBursty (sym (account-in_order (grown c seq) seq e h))
            (in_order-IsBursty (leb→le _ _ h))
      | inr h ↦
          subst IsBursty (sym (account-late (grown c seq) seq e h))
            (late-IsBursty fresh (leb-false _ _ h))
    ]
  ]

observe_seq-IsBursty :
    (c : Counts) (seq : ℕ)
    → Tracks c
    → IsBursty c
    → length c.seen < max_seen_entries
    → IsBursty (observe_seq c seq)
observe_seq-IsBursty c seq t v room = elim (observe_seq_cases c seq) [
  | inl (r, e) ↦ subst IsBursty (sym e) v
  | inr (inl (r, d, e)) ↦ subst IsBursty (sym e) (record {
    histogram = v.histogram;
    runs_le = v.runs_le;
    late_le = v.late_le;
    least_le = v.least_le;
    max_le = v.max_le;
  })
  | inr (inr (r, d, e)) ↦
      subst IsBursty (sym (e ∙ ap (λ b. account b seq) (remember_room c seq t room)))
        (account-IsBursty c seq t v room (omega (arith, unrejected c seq r)) d)
]

observe_all-IsBursty :
    (c : Counts) (seqs : List ℕ)
    → Tracks c
    → IsBursty c
    → length c.seen + length seqs ≤ max_seen_entries
    → IsBursty (observe_all c seqs)
unfolding observe_all
observe_all-IsBursty c [] t v room = v
observe_all-IsBursty c (seq ∷ seqs) t v room =
    observe_all-IsBursty (observe_seq c seq) seqs (observe_seq-Tracks c seq t (omega arith))
      (observe_seq-IsBursty c seq t v (omega arith)) (omega (arith, length-observe_seq c seq))

-- After any packets, at most as many as the duplicate map holds: the longest run lies in the
-- highest bucket that is not empty, there are no more runs than packets received, and the runs of
-- the histogram, each counted at the least of its bucket, are covered by the packets lost and
-- those recovered out of order. So is the longest run.
pub received-IsBursty : (seqs : List ℕ) → length seqs ≤ max_seen_entries → IsBursty (received seqs)
received-IsBursty seqs room =
    observe_all-IsBursty no_counts seqs no_counts-Tracks no_counts-IsBursty (omega arith)
