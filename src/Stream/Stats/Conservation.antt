-- ===== src/Stream/Stats/Conservation.antt =====
-- The loss accounting of internal/stream/stats.go: what the counters of `Observe` mean while the
-- duplicate map has room, and that none of them overflows.
use dropline.Prelude.{
  ℕ, ◌+◌, ◌-◌, ◌^◌, ◌≤◌, ◌<◌, List, [], ◌∷◌, length, contains, leb, sym, subst, if◌then◌else◌, ◌≡◌,
  refl, true, false, arith, inl, inr, Bool-cases, leb→le, leb-false, ap, ◌∙◌,
}
use dropline.Prelude.Counters.{sub64, is_pos64}
use dropline.Stream.Stats.{
  Counts, no_counts, rejects, remember, first_packet, in_order, late, account, observe_seq,
  observe_all, observe_seq_cases, account-first, account-in_order, account-late, max_int64,
  max_seen_entries,
}
use dropline.Stream.Stats.Missing.{missing, Below, Below-mono, missing-cons, missing-append}

-- The counters against the set of the sequence numbers seen.
pub record Tracks (c : Counts) : Type 0 where
  pub below : Below c.expected_seq c.seen
  pub recv_len : c.recv ≡ length c.seen
  pub lost_missing : c.lost ≡ missing c.expected_seq c.seen
  pub conserved : c.recv + c.lost ≡ c.expected_seq
  pub bound : c.expected_seq ≤ 2 ^ 63
  pub lost_i64 : c.lost < 2 ^ 63
  pub top : if c.seen_any then c.max_seq + 1 ≡ c.expected_seq else c.expected_seq ≡ 0

pub no_counts-Tracks : Tracks no_counts
no_counts-Tracks = record {
  below = tt;
  recv_len = refl;
  lost_missing = refl;
  conserved = refl;
  bound = omega arith;
  lost_i64 = omega arith;
  top = refl;
}

-- The state behind `a.recv++`, where the duplicate map has room and nothing wraps.
abbrev pub grown : Counts → ℕ → Counts
grown c seq = record c { seen = seq ∷ c.seen; recv = c.recv + 1 }

pub remember_room :
    (c : Counts) (seq : ℕ)
    → Tracks c
    → length c.seen < max_seen_entries
    → remember c seq ≡ grown c seq
unfolding remember
remember_room c seq t room = ground (arith, t.conserved, t.bound)

pub rolled_back : (n : ℕ) → 0 < n → n < 2 ^ 63 → (if is_pos64 n then sub64 n 1 else n) ≡ n - 1
rolled_back n p q = ground arith

module _ (c : Counts) (seq : ℕ) (t : Tracks c) (small : seq ≤ max_int64) where
  first_packet-Tracks : c.seen_any ≡ false → Tracks (first_packet (grown c seq) seq)
  unfolding first_packet
  first_packet-Tracks e =
      let empty : c.expected_seq ≡ 0 = ground (arith, t.top) in
      record {
        below = (omega arith, Below-mono c.seen (omega arith) t.below);
        recv_len = ground (arith, t.recv_len);
        lost_missing = omega (
          arith,
          t.lost_missing,
          t.conserved,
          t.bound,
          missing-append c.expected_seq seq c.seen (omega arith) t.below,
        );
        conserved = omega (arith, t.conserved);
        bound = omega arith;
        lost_i64 = omega arith;
        top = refl;
      }

  in_order-Tracks : c.seen_any ≡ true → c.expected_seq ≤ seq → Tracks (in_order (grown c seq) seq)
  unfolding in_order
  in_order-Tracks e h = record {
    below = (omega arith, Below-mono c.seen (omega arith) t.below);
    recv_len = ground (arith, t.recv_len);
    lost_missing = omega (
      arith,
      t.lost_missing,
      t.conserved,
      t.bound,
      missing-append c.expected_seq seq c.seen h t.below,
    );
    conserved = omega (arith, t.conserved, t.bound);
    bound = omega arith;
    lost_i64 = omega (arith, t.conserved, t.bound);
    top = ground (arith, t.top);
  }

  late-Tracks :
      c.seen_any ≡ true
      → contains seq c.seen ≡ false
      → seq < c.expected_seq
      → Tracks (late (grown c seq))
  unfolding late
  late-Tracks e fresh h =
      let less : missing c.expected_seq (seq ∷ c.seen) + 1 ≡ c.lost =
        omega (arith, t.lost_missing, missing-cons c.expected_seq seq c.seen h fresh) in
      let back = rolled_back c.lost (omega (arith, less)) t.lost_i64 in
      record {
        below = (h, t.below);
        recv_len = omega (arith, t.recv_len);
        lost_missing = back ∙ omega (arith, less);
        conserved = omega (arith, back, less, t.conserved);
        bound = t.bound;
        lost_i64 = omega (arith, back, t.lost_i64);
        top = t.top;
      }

  account-Tracks : contains seq c.seen ≡ false → Tracks (account (grown c seq) seq)
  account-Tracks fresh = elim (Bool-cases c.seen_any) [
    | inr e ↦ subst Tracks (sym (account-first (grown c seq) seq e)) (first_packet-Tracks e)
    | inl e ↦ elim (Bool-cases (leb c.expected_seq seq)) [
      | inl h ↦
          subst Tracks (sym (account-in_order (grown c seq) seq e h))
            (in_order-Tracks e (leb→le _ _ h))
      | inr h ↦
          subst Tracks (sym (account-late (grown c seq) seq e h))
            (late-Tracks e fresh (leb-false _ _ h))
    ]
  ]

pub unrejected : (c : Counts) (seq : ℕ) → rejects c seq ≡ false → seq ≤ max_int64
unfolding rejects
unrejected c seq r = ground arith

duplicate-Tracks : (c : Counts) (n : ℕ) → Tracks c → Tracks (record c { duplicates = n })
duplicate-Tracks c n t = record {
  below = t.below;
  recv_len = t.recv_len;
  lost_missing = t.lost_missing;
  conserved = t.conserved;
  bound = t.bound;
  lost_i64 = t.lost_i64;
  top = t.top;
}

-- One packet, while the duplicate map has room for it.
pub observe_seq-Tracks :
    (c : Counts) (seq : ℕ)
    → Tracks c
    → length c.seen < max_seen_entries
    → Tracks (observe_seq c seq)
observe_seq-Tracks c seq t room = elim (observe_seq_cases c seq) [
  | inl (r, e) ↦ subst Tracks (sym e) t
  | inr (inl (r, d, e)) ↦ subst Tracks (sym e) (duplicate-Tracks c _ t)
  | inr (inr (r, d, e)) ↦
      subst Tracks (sym (e ∙ ap (λ b. account b seq) (remember_room c seq t room)))
        (account-Tracks c seq t (unrejected c seq r) d)
]

-- A packet adds at most one entry to the duplicate map.
pub length-observe_seq :
    (c : Counts) (seq : ℕ) → length (observe_seq c seq).seen ≤ length c.seen + 1
unfolding observe_seq account first_packet in_order late remember
length-observe_seq c seq = ground arith

pub observe_all-Tracks :
    (c : Counts) (seqs : List ℕ)
    → Tracks c
    → length c.seen + length seqs ≤ max_seen_entries
    → Tracks (observe_all c seqs)
unfolding observe_all
observe_all-Tracks c [] t room = t
observe_all-Tracks c (seq ∷ seqs) t room =
    observe_all-Tracks (observe_seq c seq) seqs (observe_seq-Tracks c seq t (omega arith))
      (omega (arith, length-observe_seq c seq))

length-observe_all :
    (c : Counts) (seqs : List ℕ) → length (observe_all c seqs).seen ≤ length c.seen + length seqs
unfolding observe_all
length-observe_all c [] = omega arith
length-observe_all c (seq ∷ seqs) =
    omega (arith, length-observe_all (observe_seq c seq) seqs, length-observe_seq c seq)

-- The counts of a fresh accumulator after packets, oldest first.
abbrev pub received : List ℕ → Counts
received = observe_all no_counts

-- After any packets, at most as many as the duplicate map holds: `recv` and `lost` add up to the
-- next expected sequence number, `lost` is the number of the sequence numbers below it that were
-- never seen, `recv` that of those seen, and neither has left the range of an int64.
pub conservation :
    (seqs : List ℕ)
    → length seqs ≤ max_seen_entries
    → ((received seqs).recv + (received seqs).lost ≡ (received seqs).expected_seq)
      × ((received seqs).lost ≡ missing (received seqs).expected_seq (received seqs).seen)
      × ((received seqs).recv ≡ length (received seqs).seen)
      × ((received seqs).recv ≤ max_seen_entries)
      × ((received seqs).lost ≤ max_int64)
conservation seqs room =
    let t = observe_all-Tracks no_counts seqs no_counts-Tracks (omega arith) in
    (
      t.conserved,
      t.lost_missing,
      t.recv_len,
      omega (arith, t.recv_len, length-observe_all no_counts seqs),
      omega (arith, t.lost_i64),
    )
