-- ===== src/Trace/Receive/Totals.antt =====
-- cmd/dropline/trace.go against internal/agg/aggregator.go: the timeline that the client's loop leaves.
use dropline.Prelude.{
  ◌-◌, ◌≤◌, ◌<◌, ◌^◌, List, [], ◌∷◌, Option, none, some, ◌≡◌, refl, sym, ap, subst, ◌∙◌, arith,
}
use dropline.Prelude.Int.{ℤ, pos, negsuc, ◌≤ℤ◌}
use dropline.Prelude.Words.{to_u64}
use dropline.Prelude.Floats.{Floats}
use dropline.Stream.Stats.{Snapshot}
use dropline.Control.Messages.{
  Message, hello, ready, error, stats, final, reverse_hop_update, reverse_tcp_hop_update, tcp_probe,
  Stats,
}
use dropline.Agg.State.{StateSnapshot}
use dropline.Agg.Timeline.Totals.{sum_recv, sum_lost}
use dropline.Agg.Aggregator.{Aggregator, Channel, new}
use dropline.Agg.Aggregator.Events.{Call, stream, reverse_hop, reverse_tcp_hop, run, call}
use dropline.Agg.Aggregator.Steps.{recv_of, lost_of, last_stream, IsMonotone}
use dropline.Agg.Aggregator.History.{timeline_exact}
use dropline.Trace.Receive.{run_recv_loop, snapshot_of}

small : (z : ℤ) → pos 0 ≤ℤ z → z ≤ℤ pos (2 ^ 63 - 1) → (pos (to_u64 z) ≡ z) × (to_u64 z < 2 ^ 63)
unfolding to_u64
small (pos n) lo hi = (ap pos (omega arith), omega arith)
small (negsuc n) lo hi = absurd (omega arith)

module _ {F : Type 0} where
  -- What the messages ahead of the end of the loop come to as calls of the aggregator.
  abbrev calls_of : List (Option (Message F)) → List (Call F)
  calls_of [] = []
  calls_of (none ∷ msgs) = []
  calls_of (some (final m) ∷ msgs) = []
  calls_of (some (error m) ∷ msgs) = []
  calls_of (some (stats m) ∷ msgs) = stream (snapshot_of m) ∷ calls_of msgs
  calls_of (some (reverse_hop_update m) ∷ msgs) = reverse_hop m ∷ calls_of msgs
  calls_of (some (reverse_tcp_hop_update m) ∷ msgs) = reverse_tcp_hop m ∷ calls_of msgs
  calls_of (some (hello m) ∷ msgs) = calls_of msgs
  calls_of (some (ready m) ∷ msgs) = calls_of msgs
  calls_of (some (tcp_probe m) ∷ msgs) = calls_of msgs

  -- Receptions and losses of the last Stats ahead of a Final, an Error or a failed read.
  abbrev pub last_stats : ℤ × ℤ → List (Option (Message F)) → ℤ × ℤ
  last_stats l [] = l
  last_stats l (none ∷ msgs) = l
  last_stats l (some (final m) ∷ msgs) = l
  last_stats l (some (error m) ∷ msgs) = l
  last_stats l (some (stats m) ∷ msgs) = last_stats (m.recv, m.loss) msgs
  last_stats l (some (reverse_hop_update m) ∷ msgs) = last_stats l msgs
  last_stats l (some (reverse_tcp_hop_update m) ∷ msgs) = last_stats l msgs
  last_stats l (some (hello m) ∷ msgs) = last_stats l msgs
  last_stats l (some (ready m) ∷ msgs) = last_stats l msgs
  last_stats l (some (tcp_probe m) ∷ msgs) = last_stats l msgs

  -- The Stats count int64 values that are not negative, and their receptions only grow.
  abbrev pub GrowsFrom : ℤ → List (Option (Message F)) → Type 0
  GrowsFrom r [] = Unit {0}
  GrowsFrom r (none ∷ msgs) = Unit {0}
  GrowsFrom r (some (final m) ∷ msgs) = Unit {0}
  GrowsFrom r (some (error m) ∷ msgs) = Unit {0}
  GrowsFrom r (some (stats m) ∷ msgs) =
      (r ≤ℤ m.recv)
      × (pos 0 ≤ℤ m.loss)
      × (m.recv ≤ℤ pos (2 ^ 63 - 1))
      × (m.loss ≤ℤ pos (2 ^ 63 - 1))
      × GrowsFrom m.recv msgs
  GrowsFrom r (some (reverse_hop_update m) ∷ msgs) = GrowsFrom r msgs
  GrowsFrom r (some (reverse_tcp_hop_update m) ∷ msgs) = GrowsFrom r msgs
  GrowsFrom r (some (hello m) ∷ msgs) = GrowsFrom r msgs
  GrowsFrom r (some (ready m) ∷ msgs) = GrowsFrom r msgs
  GrowsFrom r (some (tcp_probe m) ∷ msgs) = GrowsFrom r msgs

  -- A list of calls that grows, from a snapshot, up to one with these counters.
  abbrev Leads : Option (Snapshot F) → List (Call F) → ℤ × ℤ → Type 0
  Leads l cs p =
      IsMonotone l cs
      × (pos (recv_of (last_stream l cs)) ≡ p.0)
      × (pos (lost_of (last_stream l cs)) ≡ p.1)

  stats-Leads :
      (l : Option (Snapshot F)) (m : Stats F) (msgs : List (Option (Message F)))
      → GrowsFrom (pos (recv_of l)) (some (stats m) ∷ msgs)
      → (pos (to_u64 m.recv) ≡ m.recv)
      → (pos (to_u64 m.loss) ≡ m.loss)
      → to_u64 m.recv < 2 ^ 63
      → to_u64 m.loss < 2 ^ 63
      → Leads
          (some (snapshot_of m))
          (calls_of msgs)
          (last_stats (pos (to_u64 m.recv), pos (to_u64 m.loss)) msgs)
      → Leads l (calls_of (some (stats m) ∷ msgs)) (last_stats (m.recv, m.loss) msgs)
  unfolding snapshot_of
  stats-Leads l m msgs (grows, _, _, _, _) r q r_small q_small (mono, rs, qs) =
      let grown : recv_of l ≤ to_u64 m.recv =
        (let h = subst (λ (z : ℤ). pos (recv_of l) ≤ℤ z) (sym r) grows in omega (arith, h)) in
      (
        (grown, r_small, q_small, mono),
        rs ∙ ap (λ (p : ℤ × ℤ). (last_stats p msgs).0) (rw (r, q) refl),
        qs ∙ ap (λ (p : ℤ × ℤ). (last_stats p msgs).1) (rw (r, q) refl),
      )

  calls-Leads :
      (l : Option (Snapshot F)) (msgs : List (Option (Message F)))
      → GrowsFrom (pos (recv_of l)) msgs
      → Leads l (calls_of msgs) (last_stats (pos (recv_of l), pos (lost_of l)) msgs)
  unfolding snapshot_of
  calls-Leads l [] g = (tt, refl, refl)
  calls-Leads l (none ∷ msgs) g = (tt, refl, refl)
  calls-Leads l (some (final m) ∷ msgs) g = (tt, refl, refl)
  calls-Leads l (some (error m) ∷ msgs) g = (tt, refl, refl)
  calls-Leads l (some (reverse_hop_update m) ∷ msgs) g = calls-Leads l msgs g
  calls-Leads l (some (reverse_tcp_hop_update m) ∷ msgs) g = calls-Leads l msgs g
  calls-Leads l (some (hello m) ∷ msgs) g = calls-Leads l msgs g
  calls-Leads l (some (ready m) ∷ msgs) g = calls-Leads l msgs g
  calls-Leads l (some (tcp_probe m) ∷ msgs) g = calls-Leads l msgs g
  calls-Leads l (some (stats m) ∷ msgs) (grows, q_min, r_max, q_max, g) =
      let (r, r_small) = small m.recv (omega (arith, grows)) r_max in
      let (q, q_small) = small m.loss q_min q_max in
      let g' : GrowsFrom (pos (to_u64 m.recv)) msgs =
        subst (λ (z : ℤ). GrowsFrom z msgs) (sym r) g in
      stats-Leads l m msgs (grows, q_min, r_max, q_max, g) r q r_small q_small
        (calls-Leads (some (snapshot_of m)) msgs g')

  run_recv_loop-run :
      (fl : Floats F) (a : Aggregator F) (msgs : List (Option (Message F)))
      → (run_recv_loop fl a msgs).0 ≡ run fl a (calls_of msgs)
  unfolding run_recv_loop run call
  run_recv_loop-run fl a [] = refl
  run_recv_loop-run fl a (none ∷ msgs) = refl
  run_recv_loop-run fl a (some (final m) ∷ msgs) = refl
  run_recv_loop-run fl a (some (error m) ∷ msgs) = refl
  run_recv_loop-run fl a (some (stats m) ∷ msgs) =
      run_recv_loop-run fl (call fl a (stream (snapshot_of m))) msgs
  run_recv_loop-run fl a (some (reverse_hop_update m) ∷ msgs) =
      run_recv_loop-run fl (call fl a (reverse_hop m)) msgs
  run_recv_loop-run fl a (some (reverse_tcp_hop_update m) ∷ msgs) =
      run_recv_loop-run fl (call fl a (reverse_tcp_hop m)) msgs
  run_recv_loop-run fl a (some (hello m) ∷ msgs) = run_recv_loop-run fl a msgs
  run_recv_loop-run fl a (some (ready m) ∷ msgs) = run_recv_loop-run fl a msgs
  run_recv_loop-run fl a (some (tcp_probe m) ∷ msgs) = run_recv_loop-run fl a msgs

  -- The timeline that the client's loop leaves in a new aggregator, of messages whose Stats count
  -- int64 values that are not negative, with receptions that only grow: its receptions add up to
  -- those of the last Stats ahead of the Final, the Error or the failed read that ends the loop,
  -- and so do its losses.
  pub run_recv_loop-totals :
      (fl : Floats F) (t0 : ℤ) (out : Option (Channel (StateSnapshot F)))
      (msgs : List (Option (Message F)))
      → GrowsFrom (pos 0) msgs
      → (pos (sum_recv (run_recv_loop fl (new fl t0 out) msgs).0.buckets)
          ≡ (last_stats (pos 0, pos 0) msgs).0)
        × (pos (sum_lost (run_recv_loop fl (new fl t0 out) msgs).0.buckets)
            ≡ (last_stats (pos 0, pos 0) msgs).1)
  run_recv_loop-totals fl t0 out msgs g =
      let (mono, r, q) = calls-Leads none msgs g in
      let (sum_r, sum_q) = timeline_exact fl t0 out (calls_of msgs) mono in
      rw (run_recv_loop-run fl (new fl t0 out) msgs) (ap pos sum_r ∙ r, ap pos sum_q ∙ q)
