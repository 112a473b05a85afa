-- ===== src/Agg/Aggregator/History.antt =====
-- internal/agg/aggregator.go: what the timeline says of the stream, over every run of calls.
use dropline.Prelude.{
  ◌^◌, ◌≤◌, ◌<◌, List, [], ◌∷◌, All, Option, none, some, ◌≡◌, refl, sym, ap, subst, ◌∙◌, arith, inl,
  inr,
}
use dropline.Prelude.Int.{ℤ}
use dropline.Prelude.Floats.{Floats}
use dropline.Stream.Stats.{Snapshot}
use dropline.Agg.State.{StateSnapshot}
use dropline.Agg.Timeline.Order.{IsAscending, times}
use dropline.Agg.Timeline.Totals.{sum_recv, sum_lost}
use dropline.Agg.Timeline.Percent.{IsConsistent}
use dropline.Agg.Timeline.Keeps.{IsTimeline}
use dropline.Agg.Aggregator.{
  Aggregator, Channel, new, publish_at, publish_last, record_stream, ingest_stream, reset,
  reset_hops,
}
use dropline.Agg.Aggregator.Events.{Call, call, run}
use dropline.Agg.Aggregator.Steps.{
  recv_of, lost_of, last_stream, IsMonotone, IsAside, Call-cases, aside-IsMonotone, call_aside,
  call_aside_last, stream_ordered, stream_totals,
}

module _ {F : Type 0} (fl : Floats F) where
  -- What `run` has on the way: the timeline's totals are the last snapshot's counters.
  abbrev IsExact : Aggregator F → Type 0
  IsExact a = IsTimeline fl (recv_of a.last) (lost_of a.last) a.buckets × (lost_of a.last < 2 ^ 63)

  last_of_stream : (a : Aggregator F) (s : Snapshot F) → (ingest_stream fl a s).last ≡ some s
  unfolding ingest_stream publish_at record_stream
  last_of_stream a s = refl

  stream-IsExact :
      (a : Aggregator F) (s : Snapshot F)
      → IsExact a
      → recv_of a.last ≤ s.recv
      → s.recv < 2 ^ 63
      → s.lost < 2 ^ 63
      → IsExact (ingest_stream fl a s)
  stream-IsExact a s ((up, cs, q, p), small) h g g' =
      let (up', cs') = stream_ordered fl a s up cs in
      let (r, l) = stream_totals fl a s (up, cs, q, p) h g small g' in
      rw (last_of_stream a s) ((up', cs', r, l), g')

  aside-IsExact : (a : Aggregator F) (c : Call F) → IsAside c → IsExact a → IsExact (call fl a c)
  aside-IsExact a c k (h, small) = rw (call_aside_last fl a c k) (call_aside fl a c _ _ k h, small)

  abbrev EndsAt : Aggregator F → Option (Snapshot F) → Type 0
  EndsAt a last = (sum_recv a.buckets ≡ recv_of last) × (sum_lost a.buckets ≡ lost_of last)

  run_exact :
      (a : Aggregator F) (last : Option (Snapshot F)) (cs : List (Call F))
      → a.last ≡ last
      → IsExact a
      → IsMonotone last cs
      → EndsAt (run fl a cs) (last_stream last cs)
  unfolding run call
  run_exact a last [] q ((up, cs, r, l), small) m = (
    r ∙ ap (λ (x : Option (Snapshot F)). recv_of x) q,
    l ∙ ap (λ (x : Option (Snapshot F)). lost_of x) q,
  )
  run_exact a last (c ∷ cs) q h m = elim (Call-cases c) [
    | inl (s, e) ↦
        subst
          (λ (x : Call F).
            IsMonotone last (x ∷ cs) → EndsAt (run fl (call fl a x) cs) (last_stream last (x ∷ cs)))
          (sym e)
          (λ (grows, r, l, m').
            run_exact (ingest_stream fl a s) (some s) cs (last_of_stream a s)
              (stream-IsExact a s h
                (subst (λ (x : Option (Snapshot F)). recv_of x ≤ s.recv) (sym q) grows) r l)
              m')
          m
    | inr (inl e) ↦ absurd (subst (λ (x : Call F). IsMonotone last (x ∷ cs)) e m)
    | inr (inr k) ↦
        let (m', same) = aside-IsMonotone last c cs k m in
        rw same (
          run_exact (call fl a c) last cs (call_aside_last fl a c k ∙ q) (aside-IsExact a c k h) m')
  ]

  -- Over every run of calls on a new aggregator without a re-arming, whose forward snapshots count
  -- int64 values with receptions that only grow, the receptions of the timeline's buckets add up
  -- to those of the last forward snapshot, and so do the losses, whichever late packets were taken
  -- off in between; before the first snapshot both totals are 0.
  pub timeline_exact :
      (t0 : ℤ) (out : Option (Channel (StateSnapshot F))) (cs : List (Call F))
      → IsMonotone none cs
      → (sum_recv (run fl (new fl t0 out) cs).buckets ≡ recv_of (last_stream none cs))
        × (sum_lost (run fl (new fl t0 out) cs).buckets ≡ lost_of (last_stream none cs))
  unfolding new
  timeline_exact t0 out cs m =
      run_exact (new fl t0 out) none cs refl ((tt, tt, refl, refl), omega arith) m

  call_ordered :
      (a : Aggregator F) (c : Call F)
      → IsAscending 0 (times a.buckets)
      → All (IsConsistent fl) a.buckets
      → IsAscending 0 (times (call fl a c).buckets) × All (IsConsistent fl) (call fl a c).buckets
  call_ordered a c up cs = elim (Call-cases c) [
    | inl (s, e) ↦ rw e (unfold call in stream_ordered fl a s up cs)
    | inr (inl e) ↦ rw e (
        unfold call in
        unfold reset in unfold publish_last in unfold publish_at in unfold reset_hops in (tt, tt))
    | inr (inr k) ↦
        let (up', cs', r, l) =
          call_aside fl a c (sum_recv a.buckets) (sum_lost a.buckets) k (up, cs, refl, refl) in
        (up', cs')
  ]

  run_ordered :
      (a : Aggregator F) (cs : List (Call F))
      → IsAscending 0 (times a.buckets)
      → All (IsConsistent fl) a.buckets
      → IsAscending 0 (times (run fl a cs).buckets) × All (IsConsistent fl) (run fl a cs).buckets
  unfolding run
  run_ordered a [] up h = (up, h)
  run_ordered a (c ∷ cs) up h =
      let (up', h') = call_ordered a c up h in run_ordered (call fl a c) cs up' h'

  -- Over every run of calls on a new aggregator, re-armings and arbitrary counters included, the
  -- timeline has one bucket per second, in ascending order, and each bucket's loss percentage is
  -- the one of its own two counters.
  pub timeline_ordered :
      (t0 : ℤ) (out : Option (Channel (StateSnapshot F))) (cs : List (Call F))
      → IsAscending 0 (times (run fl (new fl t0 out) cs).buckets)
        × All (IsConsistent fl) (run fl (new fl t0 out) cs).buckets
  unfolding new
  timeline_ordered t0 out cs = run_ordered (new fl t0 out) cs tt tt
