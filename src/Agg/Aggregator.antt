-- ===== src/Agg/Aggregator.antt =====
-- internal/agg/aggregator.go: the Aggregator and its methods. The mutex serialises the methods, so
-- that each is one function. `out` is the caller's channel with what it holds; `none` is nil.
pub mod Events
pub mod Steps
pub mod History
pub mod Reverse
pub mod Tables
pub mod Published
use dropline.Prelude.{
  ℕ, ◌+◌, ◌-◌, ◌^◌, String, str_eq, List, [], ◌∷◌, ◌++◌, map, length, Bool, true, false, ◌||◌, not,
  Option, none, some, ltb, ◌==◌, if◌then◌else◌, ◌&&◌,
}
use dropline.Prelude.Int.{ℤ, pos, pos_part, ltb_ℤ, eqb_ℤ, ◌-ℤ◌}
use dropline.Prelude.Words.{to_i64, wrap_i64}
use dropline.Prelude.Counters.{add64, sub64, is_pos64}
use dropline.Prelude.Floats.{Floats}
use dropline.Stream.Stats
use dropline.Stream.Stats.{Snapshot, no_bursts, seconds}
use dropline.Probe.Hops.{HopStat, ProbeSnapshot, TcpSnapshot}
use dropline.Control.Messages.{
  ReverseHopUpdate, ReverseTcpHopUpdate, reverse_status_ok, reverse_status_terminated_at_nat,
}
use dropline.Agg.State.{
  TcpCorroborateView, ReverseHopView, HopView, StreamView, Bucket, StateSnapshot,
}
use dropline.Agg.HopTables.{
  Table, wanted, remove_ttl, upsert, delete_above, prune, insert_by_ttl, sorted_views, hop_view,
  reverse_view, reverse_tcp_view, mark, clear,
}
use dropline.Agg.Timeline.{is_neg64, loss_pct, bucket_at, at_bucket, record_second}

-- chan StateSnapshot
pub record Channel (S : Type 0) : Type 0 where
  pub capacity : ℕ
  pub queue : List S

pub record Aggregator (F : Type 0) : Type 0 where
  pub t0 : ℤ
  pub out : Option (Channel (StateSnapshot F))
  pub buckets : List (Bucket F)
  pub last : Option (Snapshot F)
  pub last_view : StreamView F
  pub hops : List (HopView F)
  pub reverse_hops : Table F
  pub reverse_status : String
  pub last_reverse : Option (Snapshot F)
  pub last_tcp_info : Option (TcpCorroborateView F)
  pub tcp_hops : List (HopView F)
  pub reverse_tcp_hops : Table F
  pub tcp_hop_probe_port : ℕ
  pub tcp_hop_probe_supported : Bool

-- The escalation of `IngestReverseHop`.
unfoldable pub escalate : String → String → String
escalate terminus status =
    if str_eq terminus "nat" && str_eq status reverse_status_ok
    then reverse_status_terminated_at_nat
    else status

module _ {F : Type 0} where
  -- A send that does not block.
  unfoldable pub emit :
      Option (Channel (StateSnapshot F)) → StateSnapshot F → Option (Channel (StateSnapshot F))
  emit none s = none
  emit (some c) s =
      some (if ltb (length c.queue) c.capacity then record c { queue = c.queue ++ (s ∷ []) } else c)

  unfoldable pub reset_hops : Aggregator F → Aggregator F
  reset_hops a = record a { buckets = []; hops = map clear a.hops; tcp_hops = map clear a.tcp_hops }

module _ {F : Type 0} (fl : Floats F) where
  unfoldable pub stream_view : Snapshot F → StreamView F
  stream_view s = record {
    recv = s.recv;
    lost = s.lost;
    out_of_order = s.out_of_order;
    duplicates = s.duplicates;
    local_drops = s.local_drops;
    kernel_drops = s.kernel_drops;
    jitter_ms = s.jitter_ms;
    max_seq = s.max_seq;
    bursts = s.bursts;
    loss_pct = loss_pct fl s.recv s.lost;
  }

  -- The zero StreamView.
  unfoldable pub no_view : StreamView F
  no_view = record {
    recv = 0;
    lost = 0;
    out_of_order = 0;
    duplicates = 0;
    local_drops = 0;
    kernel_drops = pos 0;
    jitter_ms = fl.of_int (pos 0);
    max_seq = 0;
    bursts = no_bursts;
    loss_pct = fl.of_int (pos 0);
  }

  unfoldable pub new : ℤ → Option (Channel (StateSnapshot F)) → Aggregator F
  new t0 out = record {
    t0 = t0;
    out = out;
    buckets = [];
    last = none;
    last_view = no_view;
    hops = [];
    reverse_hops = [];
    reverse_status = "";
    last_reverse = none;
    last_tcp_info = none;
    tcp_hops = [];
    reverse_tcp_hops = [];
    tcp_hop_probe_port = 0;
    tcp_hop_probe_supported = false;
  }

  unfoldable pub last_elapsed : Aggregator F → F
  last_elapsed a = elim a.last [ none ↦ fl.of_int (pos 0) | some s ↦ s.t ]

  unfoldable pub view_of : Aggregator F → F → StateSnapshot F
  view_of a t = record {
    t = t;
    stream = a.last_view;
    buckets = a.buckets;
    latest_forward_hops = a.hops;
    latest_reverse_hops = sorted_views a.reverse_hops;
    reverse_path_status = a.reverse_status;
    reverse_stream = elim a.last_reverse [ none ↦ none | some s ↦ some (stream_view s) ];
    tcp_corroborate = a.last_tcp_info;
    latest_forward_tcp_hops = a.tcp_hops;
    latest_reverse_tcp_hops = sorted_views a.reverse_tcp_hops;
    tcp_hop_probe_supported = a.tcp_hop_probe_supported;
    tcp_hop_probe_port = a.tcp_hop_probe_port;
  }

  -- The view is built with the state that the method leaves, and sent.
  unfoldable pub publish_at : F → Aggregator F → Aggregator F
  publish_at t a = record a { out = emit a.out (view_of a t) }

  unfoldable pub publish_last : Aggregator F → Aggregator F
  publish_last a = publish_at (last_elapsed a) a

  unfoldable pub recv_delta : Option (Snapshot F) → Snapshot F → ℕ
  recv_delta none s = s.recv
  recv_delta (some l) s = let d = sub64 s.recv l.recv in if is_neg64 d then 0 else d

  unfoldable pub lost_delta : Option (Snapshot F) → Snapshot F → ℕ
  lost_delta none s = s.lost
  lost_delta (some l) s = sub64 s.lost l.lost

  -- `int(math.Floor(t))`, not below 0.
  unfoldable pub second_of : F → ℕ
  second_of t = pos_part (fl.floor t)

  unfoldable pub record_stream : Aggregator F → Snapshot F → Aggregator F
  record_stream a s = record a {
    buckets =
        record_second fl (second_of s.t) (recv_delta a.last s) (lost_delta a.last s) a.buckets;
    last = some s;
    last_view = stream_view s;
  }

  unfoldable pub ingest_stream : Aggregator F → Snapshot F → Aggregator F
  ingest_stream a s = publish_at s.t (record_stream a s)

  unfoldable pub ingest_reverse_stream : Aggregator F → Snapshot F → Aggregator F
  ingest_reverse_stream a s = publish_last (record a { last_reverse = some s })

  unfoldable pub ingest_tcp_info : Aggregator F → ℕ → ℕ → ℕ → ℕ → Aggregator F
  ingest_tcp_info a bytes_retrans bytes_out rtt_us min_rtt_us = publish_last (record a {
    last_tcp_info = some (record {
      supported = true;
      bytes_retrans = bytes_retrans;
      bytes_out = bytes_out;
      retrans_pct =
          if ltb 0 bytes_out
          then fl.mul (fl.div (fl.of_int (pos bytes_retrans)) (fl.of_int (pos bytes_out)))
              (fl.of_int (pos 100))
          else fl.of_int (pos 0);
      rtt_us = rtt_us;
      min_rtt_us = min_rtt_us;
    });
  })

  unfoldable pub mark_tcp_corroborate_unsupported : Aggregator F → Aggregator F
  mark_tcp_corroborate_unsupported a = publish_last (record a {
    last_tcp_info = some (record {
      supported = false;
      bytes_retrans = 0;
      bytes_out = 0;
      retrans_pct = fl.of_int (pos 0);
      rtt_us = 0;
      min_rtt_us = 0;
    });
  })

  unfoldable pub set_hops : List (HopView F) → Bucket F → Bucket F
  set_hops hs b = record b { hops = hs }

  unfoldable pub set_tcp_hops : List (HopView F) → Bucket F → Bucket F
  set_tcp_hops hs b = record b { tcp_hops = hs }

  unfoldable pub ingest_forward_hop : Aggregator F → ProbeSnapshot F → Aggregator F
  ingest_forward_hop a s =
      let elapsed = seconds ⦃fl = fl⦄ (s.at -ℤ a.t0) in
      let views = map hop_view s.hops in
      let idx = second_of elapsed in
      publish_at elapsed (record a {
        hops = views;
        buckets = at_bucket fl idx (set_hops views) (bucket_at fl idx a.buckets);
      })

  -- The bucket is written when there are hops.
  unfoldable pub tcp_buckets : ℤ → List (HopView F) → ℤ → List (Bucket F) → List (Bucket F)
  tcp_buckets t0 [] at bs = bs
  tcp_buckets t0 (h ∷ hs) at bs =
      let idx = second_of (seconds ⦃fl = fl⦄ (at -ℤ t0)) in
      at_bucket fl idx (set_tcp_hops (h ∷ hs)) (bucket_at fl idx bs)

  unfoldable pub ingest_forward_tcp_hop : Aggregator F → TcpSnapshot F → Aggregator F
  ingest_forward_tcp_hop a s = publish_last (record a {
    tcp_hop_probe_supported = s.supported;
    tcp_hop_probe_port = if s.port == 0 then a.tcp_hop_probe_port else s.port;
    tcp_hops = map hop_view s.hops;
    buckets = tcp_buckets a.t0 (map hop_view s.hops) s.at a.buckets;
  })

  unfoldable pub ingest_reverse_tcp_hop : Aggregator F → ReverseTcpHopUpdate F → Aggregator F
  ingest_reverse_tcp_hop a u = publish_last (record a {
    tcp_hop_probe_port =
        if not (u.port == 0) && a.tcp_hop_probe_port == 0 then u.port else a.tcp_hop_probe_port;
    reverse_tcp_hops = prune u.max_ttl (upsert u.ttl (reverse_tcp_view u) a.reverse_tcp_hops);
  })

  unfoldable pub ingest_reverse_hop : Aggregator F → ReverseHopUpdate F → Aggregator F
  ingest_reverse_hop a u = publish_last (record a {
    reverse_hops = prune u.max_ttl (upsert u.ttl (reverse_view u) a.reverse_hops);
    reverse_status = escalate u.terminus a.reverse_status;
  })

  unfoldable pub mark_bucket : List ℤ → Bucket F → Bucket F
  mark_bucket ttls b = record b { hops = map (mark ttls) b.hops }

  unfoldable pub mark_tcp_bucket : List ℤ → Bucket F → Bucket F
  mark_tcp_bucket ttls b = record b { tcp_hops = map (mark ttls) b.tcp_hops }

  unfoldable pub mark_suspects : Aggregator F → List ℤ → Aggregator F
  mark_suspects a [] = a
  mark_suspects a (t ∷ ts) = publish_last (record a {
    hops = map (mark (t ∷ ts)) a.hops;
    buckets = map (mark_bucket (t ∷ ts)) a.buckets;
  })

  unfoldable pub mark_tcp_suspects : Aggregator F → List ℤ → Aggregator F
  mark_tcp_suspects a [] = a
  mark_tcp_suspects a (t ∷ ts) = publish_last (record a {
    tcp_hops = map (mark (t ∷ ts)) a.tcp_hops;
    buckets = map (mark_tcp_bucket (t ∷ ts)) a.buckets;
  })

  unfoldable pub reset : Aggregator F → Aggregator F
  reset a = publish_last (reset_hops a)

  unfoldable pub set_reverse_path_status : Aggregator F → String → Aggregator F
  set_reverse_path_status a s = publish_last (record a { reverse_status = s })

  -- `Snapshot`
  unfoldable pub state_snapshot : Aggregator F → StateSnapshot F
  state_snapshot a = view_of a (last_elapsed a)
