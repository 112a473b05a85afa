-- ===== src/Agg/Aggregator/Steps.antt =====
-- internal/agg/aggregator.go: what one call does to the timeline: a forward snapshot adds its deltas,
-- a re-arming empties it, and every other call leaves its stream side alone.
use dropline.Prelude.{
  ℕ, ◌+◌, ◌-◌, ◌^◌, ◌≤◌, ◌<◌, List, [], ◌∷◌, All, map, Option, none, some, leb, ◌≡◌, refl, arith,
  Bool-cases, inl, inr, ◌⊎◌,
}
use dropline.Prelude.Int.{ℤ}
use dropline.Prelude.Floats.{Floats}
use dropline.Stream.Stats.{Snapshot}
use dropline.Agg.State.{Bucket, HopView}
use dropline.Agg.Timeline.Order.{IsAscending, times, bucket_at-IsAscending, times-record_second}
use dropline.Agg.Timeline.Totals.{sum_recv, sum_lost, record_second_gain, record_second_loss}
use dropline.Agg.Timeline.Percent.{IsConsistent, record_second-All}
use dropline.Agg.Timeline.Keeps.{IsSameSide, IsTimeline, write-IsTimeline, map-IsTimeline}
use dropline.Agg.Aggregator.{
  Aggregator, publish_at, publish_last, recv_delta, lost_delta, second_of, record_stream,
  ingest_stream, ingest_reverse_stream, ingest_tcp_info, mark_tcp_corroborate_unsupported, set_hops,
  set_tcp_hops, tcp_buckets, ingest_forward_hop, ingest_forward_tcp_hop, ingest_reverse_tcp_hop,
  ingest_reverse_hop, mark_bucket, mark_tcp_bucket, mark_suspects, mark_tcp_suspects,
  set_reverse_path_status,
}
use dropline.Agg.HopTables.{hop_view}
use dropline.Agg.Aggregator.Events.{
  Call, stream, reverse_stream, tcp_info, tcp_unsupported, forward_hop, forward_tcp_hop,
  reverse_hop, reverse_tcp_hop, suspects, tcp_suspects, rearm, path_status, call,
}

-- The counters of the last snapshot, if there was one.
abbrev pub recv_of : {F : Type 0} → Option (Snapshot F) → ℕ
recv_of none = 0
recv_of (some s) = s.recv

abbrev pub lost_of : {F : Type 0} → Option (Snapshot F) → ℕ
lost_of none = 0
lost_of (some s) = s.lost

-- The last forward snapshot among the calls.
abbrev pub last_stream : {F : Type 0} → Option (Snapshot F) → List (Call F) → Option (Snapshot F)
last_stream l [] = l
last_stream l (stream s ∷ cs) = last_stream (some s) cs
last_stream l (c ∷ cs) = last_stream l cs

-- No re-arming, and the counters of the forward snapshots are int64 values, of which the
-- receptions only grow.
abbrev pub IsMonotone : {F : Type 0} → Option (Snapshot F) → List (Call F) → Type 0
IsMonotone l [] = Unit {0}
IsMonotone l (stream s ∷ cs) =
    (recv_of l ≤ s.recv) × (s.recv < 2 ^ 63) × (s.lost < 2 ^ 63) × IsMonotone (some s) cs
IsMonotone l (rearm ∷ cs) = ⊥
IsMonotone l (c ∷ cs) = IsMonotone l cs

module _ {F : Type 0} where
  -- A call that is no forward snapshot and no re-arming.
  abbrev pub IsAside : Call F → Type 0
  IsAside (stream s) = ⊥
  IsAside rearm = ⊥
  IsAside c = Unit {0}

  pub Call-cases : (c : Call F) → ((s : Snapshot F) × (c ≡ stream s)) ⊎ (c ≡ rearm) ⊎ IsAside c
  Call-cases (stream s) = inl (s, refl)
  Call-cases rearm = inr (inl refl)
  Call-cases (reverse_stream s) = inr (inr tt)
  Call-cases (tcp_info retrans out rtt min_rtt) = inr (inr tt)
  Call-cases tcp_unsupported = inr (inr tt)
  Call-cases (forward_hop s) = inr (inr tt)
  Call-cases (forward_tcp_hop s) = inr (inr tt)
  Call-cases (reverse_hop u) = inr (inr tt)
  Call-cases (reverse_tcp_hop u) = inr (inr tt)
  Call-cases (suspects ttls) = inr (inr tt)
  Call-cases (tcp_suspects ttls) = inr (inr tt)
  Call-cases (path_status s) = inr (inr tt)

  pub aside-IsMonotone :
      (l : Option (Snapshot F)) (c : Call F) (cs : List (Call F))
      → IsAside c
      → IsMonotone l (c ∷ cs)
      → IsMonotone l cs × (last_stream l (c ∷ cs) ≡ last_stream l cs)
  aside-IsMonotone l (stream s) cs k m = absurd k
  aside-IsMonotone l rearm cs k m = absurd k
  aside-IsMonotone l (reverse_stream s) cs k m = (m, refl)
  aside-IsMonotone l (tcp_info retrans out rtt min_rtt) cs k m = (m, refl)
  aside-IsMonotone l tcp_unsupported cs k m = (m, refl)
  aside-IsMonotone l (forward_hop s) cs k m = (m, refl)
  aside-IsMonotone l (forward_tcp_hop s) cs k m = (m, refl)
  aside-IsMonotone l (reverse_hop u) cs k m = (m, refl)
  aside-IsMonotone l (reverse_tcp_hop u) cs k m = (m, refl)
  aside-IsMonotone l (suspects ttls) cs k m = (m, refl)
  aside-IsMonotone l (tcp_suspects ttls) cs k m = (m, refl)
  aside-IsMonotone l (path_status s) cs k m = (m, refl)

module _ {F : Type 0} (fl : Floats F) where
  set_hops-IsSameSide : (hs : List (HopView F)) (b : Bucket F) → IsSameSide (set_hops fl hs b) b
  unfolding set_hops
  set_hops-IsSameSide hs b = (refl, refl, refl, refl)

  set_tcp_hops-IsSameSide :
      (hs : List (HopView F)) (b : Bucket F) → IsSameSide (set_tcp_hops fl hs b) b
  unfolding set_tcp_hops
  set_tcp_hops-IsSameSide hs b = (refl, refl, refl, refl)

  mark_bucket-IsSameSide : (ttls : List ℤ) (b : Bucket F) → IsSameSide (mark_bucket fl ttls b) b
  unfolding mark_bucket
  mark_bucket-IsSameSide ttls b = (refl, refl, refl, refl)

  mark_tcp_bucket-IsSameSide :
      (ttls : List ℤ) (b : Bucket F) → IsSameSide (mark_tcp_bucket fl ttls b) b
  unfolding mark_tcp_bucket
  mark_tcp_bucket-IsSameSide ttls b = (refl, refl, refl, refl)

  tcp_buckets_lem :
      (t0 at : ℤ) (hs : List (HopView F)) (r l : ℕ) (bs : List (Bucket F))
      → IsTimeline fl r l bs
      → IsTimeline fl r l (tcp_buckets fl t0 hs at bs)
  unfolding tcp_buckets
  tcp_buckets_lem t0 at [] r l bs h = h
  tcp_buckets_lem t0 at (v ∷ vs) r l bs h =
      write-IsTimeline fl (set_tcp_hops fl (v ∷ vs)) (set_tcp_hops-IsSameSide (v ∷ vs)) _ r l bs h

  mark_suspects_lem :
      (a : Aggregator F) (ttls : List ℤ) (r l : ℕ)
      → IsTimeline fl r l a.buckets
      → IsTimeline fl r l (mark_suspects fl a ttls).buckets
  unfolding mark_suspects publish_last publish_at
  mark_suspects_lem a [] r l h = h
  mark_suspects_lem a (t ∷ ts) r l h =
      map-IsTimeline fl (mark_bucket fl (t ∷ ts)) (mark_bucket-IsSameSide (t ∷ ts)) r l a.buckets h

  mark_tcp_suspects_lem :
      (a : Aggregator F) (ttls : List ℤ) (r l : ℕ)
      → IsTimeline fl r l a.buckets
      → IsTimeline fl r l (mark_tcp_suspects fl a ttls).buckets
  unfolding mark_tcp_suspects publish_last publish_at
  mark_tcp_suspects_lem a [] r l h = h
  mark_tcp_suspects_lem a (t ∷ ts) r l h =
      map-IsTimeline fl (mark_tcp_bucket fl (t ∷ ts)) (mark_tcp_bucket-IsSameSide (t ∷ ts)) r l
        a.buckets h

  pub call_aside :
      (a : Aggregator F) (c : Call F) (r l : ℕ)
      → IsAside c
      → IsTimeline fl r l a.buckets
      → IsTimeline fl r l (call fl a c).buckets
  unfolding call ingest_reverse_stream ingest_tcp_info mark_tcp_corroborate_unsupported
      ingest_forward_hop ingest_forward_tcp_hop ingest_reverse_hop ingest_reverse_tcp_hop
      set_reverse_path_status publish_last publish_at
  call_aside a (reverse_stream s) r l k h = h
  call_aside a (tcp_info retrans out rtt min_rtt) r l k h = h
  call_aside a tcp_unsupported r l k h = h
  call_aside a (forward_hop s) r l k h =
      write-IsTimeline fl _ (set_hops-IsSameSide (map hop_view s.hops)) _ r l a.buckets h
  call_aside a (forward_tcp_hop s) r l k h =
      tcp_buckets_lem a.t0 s.at (map hop_view s.hops) r l a.buckets h
  call_aside a (reverse_hop u) r l k h = h
  call_aside a (reverse_tcp_hop u) r l k h = h
  call_aside a (suspects ttls) r l k h = mark_suspects_lem a ttls r l h
  call_aside a (tcp_suspects ttls) r l k h = mark_tcp_suspects_lem a ttls r l h
  call_aside a (path_status s) r l k h = h
  call_aside a (stream s) r l k h = absurd k
  call_aside a rearm r l k h = absurd k

  pub call_aside_last : (a : Aggregator F) (c : Call F) → IsAside c → (call fl a c).last ≡ a.last
  unfolding call ingest_reverse_stream ingest_tcp_info mark_tcp_corroborate_unsupported
      ingest_forward_hop ingest_forward_tcp_hop ingest_reverse_hop ingest_reverse_tcp_hop
      set_reverse_path_status publish_last publish_at mark_suspects mark_tcp_suspects
  call_aside_last a (reverse_stream s) k = refl
  call_aside_last a (tcp_info retrans out rtt min_rtt) k = refl
  call_aside_last a tcp_unsupported k = refl
  call_aside_last a (forward_hop s) k = refl
  call_aside_last a (forward_tcp_hop s) k = refl
  call_aside_last a (reverse_hop u) k = refl
  call_aside_last a (reverse_tcp_hop u) k = refl
  call_aside_last a (suspects []) k = refl
  call_aside_last a (suspects (t ∷ ts)) k = refl
  call_aside_last a (tcp_suspects []) k = refl
  call_aside_last a (tcp_suspects (t ∷ ts)) k = refl
  call_aside_last a (path_status s) k = refl
  call_aside_last a (stream s) k = absurd k
  call_aside_last a rearm k = absurd k

  recv_delta_lem :
      (last : Option (Snapshot F)) (s : Snapshot F)
      → recv_of last ≤ s.recv
      → s.recv < 2 ^ 63
      → recv_of last + recv_delta fl last s ≡ s.recv
  unfolding recv_delta
  recv_delta_lem none s h g = omega arith
  recv_delta_lem (some l) s h g = ground arith

  lost_delta_cases :
      (last : Option (Snapshot F)) (s : Snapshot F)
      → lost_of last < 2 ^ 63
      → s.lost < 2 ^ 63
      → (lost_of last + lost_delta fl last s ≡ s.lost)
        ⊎ ((2 ^ 63 < lost_delta fl last s)
            × (lost_of last - (2 ^ 64 - lost_delta fl last s) ≡ s.lost))
  unfolding lost_delta
  lost_delta_cases none s h g = inl (omega arith)
  lost_delta_cases (some l) s h g = elim (Bool-cases (leb l.lost s.lost)) [
    | inl e ↦ inl (ground arith)
    | inr e ↦ inr (ground arith, ground arith)
  ]

  pub stream_ordered :
      (a : Aggregator F) (s : Snapshot F)
      → IsAscending 0 (times a.buckets)
      → All (IsConsistent fl) a.buckets
      → IsAscending 0 (times (ingest_stream fl a s).buckets)
        × All (IsConsistent fl) (ingest_stream fl a s).buckets
  unfolding ingest_stream publish_at record_stream
  stream_ordered a s up cs = (
    rw
        (times-record_second fl (second_of fl s.t) (recv_delta fl a.last s) (lost_delta fl a.last s)
          a.buckets)
        (bucket_at-IsAscending fl (second_of fl s.t) a.buckets up),
    record_second-All fl (second_of fl s.t) _ _ a.buckets up cs,
  )

  pub stream_totals :
      (a : Aggregator F) (s : Snapshot F)
      → IsTimeline fl (recv_of a.last) (lost_of a.last) a.buckets
      → recv_of a.last ≤ s.recv
      → s.recv < 2 ^ 63
      → lost_of a.last < 2 ^ 63
      → s.lost < 2 ^ 63
      → (sum_recv (ingest_stream fl a s).buckets ≡ s.recv)
        × (sum_lost (ingest_stream fl a s).buckets ≡ s.lost)
  unfolding ingest_stream publish_at record_stream
  stream_totals a s (up, cs, r, l) h g h' g' =
      let d = recv_delta fl a.last s in
      let grown = recv_delta_lem a.last s h g in
      elim (lost_delta_cases a.last s h' g') [
        | inl e ↦
            let (r', l') =
              record_second_gain fl (second_of fl s.t) d (lost_delta fl a.last s) a.buckets up
                (omega arith) (omega arith) in
            (omega arith, omega arith)
        | inr (n, e) ↦
            let (r', l') =
              record_second_loss fl (second_of fl s.t) d (lost_delta fl a.last s) a.buckets up
                (omega arith) (omega arith) n in
            (omega arith, omega arith)
      ]
