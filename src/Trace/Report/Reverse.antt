-- ===== src/Trace/Report/Reverse.antt =====
-- cmd/dropline/trace.go, `reverseStreamReport`, against internal/stream/stats.go.
use dropline.Prelude.{ℕ, ◌+◌, ◌-◌, ◌≤◌, List, length, some, ◌≡◌, refl, ap, ◌∙◌, arith}
use dropline.Prelude.Int.{pos, ◌+ℤ◌, ◌-ℤ◌}
use dropline.Prelude.Words.{to_i64, to_u64, wrap_i64, to_i64_small}
use dropline.Prelude.Floats.{Floats}
use dropline.Control.Messages.{FinalStats}
use dropline.Stream.Stats.{max_seen_entries, max_int64}
use dropline.Stream.Stats.Conservation.{received, conservation}
use dropline.Agg.State.{StreamView}
use dropline.Report.{ReverseStreamReport}
use dropline.Trace.Report.{reverse_stream_report, with_view, effective_loss, sent_in, duration_in}

effective :
    (sent recv gaps : ℕ)
    → recv + gaps ≤ sent
    → sent ≤ max_int64
    → effective_loss (pos sent) (pos recv) (pos gaps) ≡ pos (sent - recv)
unfolding effective_loss wrap_i64 to_u64 to_i64 ◌-ℤ◌
effective sent recv gaps le small = ground arith

whole : (sent recv : ℕ) → recv ≤ sent → pos sent ≡ pos recv +ℤ pos (sent - recv)
unfolding ◌+ℤ◌
whole sent recv le = ground arith

-- The report on a reverse stream of which the server says how many packets it sent, and the client has
-- observed any, at most as many as its duplicate map holds and none numbered at or above that: there
-- is one, and what it gives as received and as lost add up to what was sent, the packets behind the
-- last one that arrived among the lost.
pub reverse_stream_report_exact :
    {F : Type 0} (fl : Floats F) (v : StreamView F) (fs : FinalStats F) (seqs : List ℕ) (sent : ℕ)
    → length seqs ≤ max_seen_entries
    → v.recv ≡ (received seqs).recv
    → v.lost ≡ (received seqs).lost
    → fs.reverse_sent ≡ pos sent
    → (received seqs).expected_seq ≤ sent
    → sent ≤ max_int64
    → (out : ReverseStreamReport F) × (reverse_stream_report fl (some v) (some fs) ≡ some out)
      × (out.recv ≡ pos (length (received seqs).seen))
      × (out.lost ≡ pos (sent - length (received seqs).seen))
      × (out.sent ≡ out.recv +ℤ out.lost)
unfolding reverse_stream_report with_view sent_in
reverse_stream_report_exact fl v fs seqs sent room recv lost told below small =
    let (sum, _, len, r_small, l_small) = conservation seqs room in
    let c = received seqs in
    let r : to_i64 v.recv ≡ pos c.recv = ap to_i64 recv ∙ to_i64_small c.recv (omega arith) in
    let l : to_i64 v.lost ≡ pos c.lost =
      ap to_i64 lost ∙ to_i64_small c.lost (omega (arith, l_small)) in
    let loss : effective_loss fs.reverse_sent (to_i64 v.recv) (to_i64 v.lost)
        ≡ pos (sent - c.recv) =
      rw (told, r, l) (effective sent c.recv c.lost (omega arith) small) in
    (
      with_view fl v fs.reverse_sent (duration_in fl (some fs)),
      refl,
      r ∙ ap pos len,
      loss ∙ ap (λ (n : ℕ). pos (sent - n)) len,
      told ∙ whole sent c.recv (omega arith) ∙ rw (loss, r) refl,
    )
