-- ===== src/Agg/Aggregator/Published.antt =====
-- internal/agg/aggregator.go: the reverse hop tables that `snapshotLocked` publishes, over every run.
use dropline.Prelude.{List, [], ◌∷◌, ◌&&◌, Option, none, some, ◌≡◌, refl, if◌then◌else◌}
use dropline.Prelude.Int.{ℤ, pos, ltb_ℤ, eqb_ℤ}
use dropline.Prelude.Floats.{Floats}
use dropline.Control.Messages.{ReverseHopUpdate, ReverseTcpHopUpdate}
use dropline.Agg.State.{StateSnapshot}
use dropline.Agg.Aggregator.{
  Aggregator, Channel, new, state_snapshot, view_of, publish_at, publish_last, ingest_stream,
  record_stream, ingest_reverse_stream, ingest_tcp_info, mark_tcp_corroborate_unsupported,
  ingest_forward_hop, ingest_forward_tcp_hop, ingest_reverse_tcp_hop, ingest_reverse_hop,
  mark_suspects, mark_tcp_suspects, reset, reset_hops, set_reverse_path_status,
}
use dropline.Agg.HopTables.{reverse_view, reverse_tcp_view}
use dropline.Agg.Aggregator.Events.{
  Call, stream, reverse_stream, tcp_info, tcp_unsupported, forward_hop, forward_tcp_hop,
  reverse_hop, reverse_tcp_hop, suspects, tcp_suspects, rearm, path_status, call, run,
}
use dropline.Agg.Aggregator.Tables.{
  row, IsTable, IsSortedByTtl, update-IsTable, row_update, sorted_views-IsSortedByTtl,
}

module _ {F : Type 0} (fl : Floats F) where
  abbrev HasTables : Aggregator F → Type 0
  HasTables a = IsTable a.reverse_hops × IsTable a.reverse_tcp_hops

  reverse_view-ttl : (u : ReverseHopUpdate F) → (reverse_view u).ttl ≡ u.ttl
  unfolding reverse_view
  reverse_view-ttl u = refl

  reverse_tcp_view-ttl : (u : ReverseTcpHopUpdate F) → (reverse_tcp_view u).ttl ≡ u.ttl
  unfolding reverse_tcp_view
  reverse_tcp_view-ttl u = refl

  call-HasTables : (a : Aggregator F) (c : Call F) → HasTables a → HasTables (call fl a c)
  unfolding call ingest_stream record_stream ingest_reverse_stream ingest_tcp_info
      mark_tcp_corroborate_unsupported ingest_forward_hop ingest_forward_tcp_hop ingest_reverse_hop
      ingest_reverse_tcp_hop mark_suspects mark_tcp_suspects reset reset_hops
      set_reverse_path_status publish_last publish_at
  call-HasTables a (stream s) h = h
  call-HasTables a (reverse_stream s) h = h
  call-HasTables a (tcp_info retrans out rtt low) h = h
  call-HasTables a tcp_unsupported h = h
  call-HasTables a (forward_hop s) h = h
  call-HasTables a (forward_tcp_hop s) h = h
  call-HasTables a (reverse_hop u) h =
      (update-IsTable u.ttl u.max_ttl (reverse_view u) a.reverse_hops (reverse_view-ttl u) h.0, h.1)
  call-HasTables a (reverse_tcp_hop u) h = (
    h.0,
    update-IsTable u.ttl u.max_ttl (reverse_tcp_view u) a.reverse_tcp_hops (reverse_tcp_view-ttl u)
        h.1,
  )
  call-HasTables a (suspects []) h = h
  call-HasTables a (suspects (t ∷ ts)) h = h
  call-HasTables a (tcp_suspects []) h = h
  call-HasTables a (tcp_suspects (t ∷ ts)) h = h
  call-HasTables a rearm h = h
  call-HasTables a (path_status s) h = h

  run-HasTables : (a : Aggregator F) (cs : List (Call F)) → HasTables a → HasTables (run fl a cs)
  unfolding run
  run-HasTables a [] h = h
  run-HasTables a (c ∷ cs) h = run-HasTables (call fl a c) cs (call-HasTables a c h)

  new-HasTables : (t0 : ℤ) (out : Option (Channel (StateSnapshot F))) → HasTables (new fl t0 out)
  unfolding new
  new-HasTables t0 out = (tt, tt)

  -- After every run of calls on a new aggregator, both published reverse hop tables have their
  -- rows in strictly ascending TTL order.
  published_sorted :
      (t0 : ℤ) (out : Option (Channel (StateSnapshot F))) (cs : List (Call F))
      → IsSortedByTtl (state_snapshot fl (run fl (new fl t0 out) cs)).latest_reverse_hops
        × IsSortedByTtl (state_snapshot fl (run fl (new fl t0 out) cs)).latest_reverse_tcp_hops
  unfolding state_snapshot view_of
  published_sorted t0 out cs =
      let (icmp, tcp) = run-HasTables (new fl t0 out) cs (new-HasTables t0 out) in
      (sorted_views-IsSortedByTtl _ icmp, sorted_views-IsSortedByTtl _ tcp)

  -- After every run of calls on a new aggregator, a hop update changes the published reverse table
  -- at its own TTL, where its row stands, and above the TTL cap that it reports, if that is
  -- positive, where no row is left; every other row is as it was.
  pub published_row :
      (t0 : ℤ) (out : Option (Channel (StateSnapshot F))) (cs : List (Call F))
      (u : ReverseHopUpdate F) (j : ℤ)
      → row j
          (state_snapshot fl
            (ingest_reverse_hop fl (run fl (new fl t0 out) cs) u)).latest_reverse_hops
        ≡ (if ltb_ℤ (pos 0) u.max_ttl && ltb_ℤ u.max_ttl j
            then none
            else if eqb_ℤ u.ttl j
            then some (reverse_view u)
            else row j (state_snapshot fl (run fl (new fl t0 out) cs)).latest_reverse_hops)
  unfolding state_snapshot view_of ingest_reverse_hop publish_last publish_at
  published_row t0 out cs u j =
      row_update u.ttl j u.max_ttl (reverse_view u) _ (reverse_view-ttl u)
        (run-HasTables (new fl t0 out) cs (new-HasTables t0 out)).0
