-- ===== src/Serve/Final/Exact.antt =====
-- cmd/dropline/serve.go against internal/stream/stats.go: the Final of what an accumulator has seen.
use dropline.Prelude.{
  ℕ, ◌+◌, ◌≤◌, ◌⊎◌, List, length, ◌||◌, Option, if◌then◌else◌, ◌≡◌, refl, ap, ◌∙◌, arith,
  Bool-cases, inl, inr,
}
use dropline.Prelude.Int.{ℤ, pos, ◌+ℤ◌}
use dropline.Prelude.Words.{to_i64, to_i64_small}
use dropline.Prelude.Counters.{add64, is_pos64}
use dropline.Prelude.Floats.{Floats}
use dropline.Control.Messages.{Hello}
use dropline.Stream.Stats.{Accumulator, snapshot, no_counts, max_seen_entries, max_int64}
use dropline.Stream.Stats.Conservation.{
  received, conservation, no_counts-Tracks, observe_all-Tracks,
}
use dropline.Stream.Stats.Missing.{missing}
use dropline.Serve.Final.{build_final, sent_of}

-- The highest number is the one ahead of the next expected, once there is one.
received_top :
    (seqs : List ℕ)
    → length seqs ≤ max_seen_entries
    → ((received seqs).expected_seq ≡ 0)
      ⊎ ((received seqs).expected_seq ≡ (received seqs).max_seq + 1)
received_top seqs room =
    let t = observe_all-Tracks no_counts seqs no_counts-Tracks (omega arith) in
    elim (Bool-cases (received seqs).seen_any) [
      | inl any ↦ inr (let h = t.top in ground arith)
      | inr fresh ↦ inl (let h = t.top in ground arith)
    ]

-- The number of the packets sent, as far as the counts tell.
counted :
    (recv lost max_seq expected : ℕ)
    → recv + lost ≡ expected
    → (expected ≡ 0) ⊎ (expected ≡ max_seq + 1)
    → expected ≤ max_int64
    → (if is_pos64 recv || is_pos64 lost then to_i64 (add64 max_seq 1) else pos 0) ≡ pos expected
unfolding to_i64
counted recv lost max_seq expected sum (inl none_yet) small = ground arith
counted recv lost max_seq expected sum (inr top) small = ground arith

pos+ℤpos : (m n k : ℕ) → m + n ≡ k → pos k ≡ pos m +ℤ pos n
unfolding ◌+ℤ◌
pos+ℤpos m n k h = ground arith

-- The Final that the server builds of an accumulator that has observed any packets, at most as many
-- as its duplicate map holds, while the next expected number is an int64: what it gives as sent is
-- what it gives as received and as lost together, and that is the next expected number; received
-- are the numbers seen, and lost those below the next expected one that were not.
pub build_final_exact :
    {F : Type 0} (fl : Floats F) (hello : Hello) (a : Accumulator F) (now : ℤ) (seqs : List ℕ)
    (reverse_sent : Option ℤ) (reverse_duration : Option F)
    → length seqs ≤ max_seen_entries
    → a.counts ≡ received seqs
    → (received seqs).expected_seq ≤ max_int64
    → ((build_final fl hello (snapshot ⦃fl = fl⦄ a now) reverse_sent reverse_duration).stats.sent
        ≡ pos (received seqs).expected_seq)
      × ((build_final fl hello (snapshot ⦃fl = fl⦄ a now) reverse_sent reverse_duration).stats.sent
          ≡ (build_final fl hello
              (snapshot ⦃fl = fl⦄ a now)
              reverse_sent
              reverse_duration).stats.recv
            +ℤ (build_final fl hello
                (snapshot ⦃fl = fl⦄ a now)
                reverse_sent
                reverse_duration).stats.loss)
      × ((build_final fl hello (snapshot ⦃fl = fl⦄ a now) reverse_sent reverse_duration).stats.recv
          ≡ pos (length (received seqs).seen))
      × ((build_final fl hello (snapshot ⦃fl = fl⦄ a now) reverse_sent reverse_duration).stats.loss
          ≡ pos (missing (received seqs).expected_seq (received seqs).seen))
unfolding build_final snapshot sent_of
build_final_exact fl hello a now seqs reverse_sent reverse_duration room same small =
    let (sum, lost, recv, r_small, l_small) = conservation seqs room in
    let c = received seqs in
    let top = received_top seqs room in
    let sent = counted c.recv c.lost c.max_seq c.expected_seq sum top small in
    let r = to_i64_small c.recv (omega arith) in
    let l = to_i64_small c.lost (omega (arith, l_small)) in
    rw same (
      sent,
      sent ∙ (pos+ℤpos c.recv c.lost c.expected_seq sum ∙ rw (r, l) refl),
      r ∙ ap pos recv,
      l ∙ ap pos lost,
    )
