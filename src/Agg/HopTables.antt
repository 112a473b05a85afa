-- ===== src/Agg/HopTables.antt =====
-- internal/agg/aggregator.go: the tables of hops: the translation of the probers' rows, the maps of
-- the reverse path with their pruning and their publication in TTL order, and the suspect flags. A
-- Go map of the source is `Table`, whose iteration has no order: the published tables are sorted.
use dropline.Prelude.{List, [], ◌∷◌, Bool, true, false, ◌||◌, if◌then◌else◌}
use dropline.Prelude.Int.{ℤ, pos, ltb_ℤ, eqb_ℤ}
use dropline.Probe.Hops.{HopStat}
use dropline.Control.Messages.{ReverseHopUpdate, ReverseTcpHopUpdate}
use dropline.Agg.State.{ReverseHopView, HopView}

-- map[int]ReverseHopView
abbrev pub Table : Type 0 → Type 0
Table F = List (ℤ × ReverseHopView F)

-- want[ttl]
unfoldable pub wanted : List ℤ → ℤ → Bool
wanted [] t = false
wanted (w ∷ ws) t = eqb_ℤ w t || wanted ws t

module _ {F : Type 0} where
  unfoldable pub remove_ttl : ℤ → Table F → Table F
  remove_ttl k [] = []
  remove_ttl k ((j, v) ∷ m) = let rest = remove_ttl k m in if eqb_ℤ j k then rest else (j, v) ∷ rest

  -- m[k] = v
  unfoldable pub upsert : ℤ → ReverseHopView F → Table F → Table F
  upsert k v m = (k, v) ∷ remove_ttl k m

  -- The loop that deletes what is past the server's cap.
  unfoldable pub delete_above : ℤ → Table F → Table F
  delete_above cap [] = []
  delete_above cap ((j, v) ∷ m) =
      let rest = delete_above cap m in if ltb_ℤ cap j then rest else (j, v) ∷ rest

  unfoldable pub prune : ℤ → Table F → Table F
  prune max_ttl m = if ltb_ℤ (pos 0) max_ttl then delete_above max_ttl m else m

  -- sort.Slice by TTL, of the map's values.
  unfoldable pub insert_by_ttl :
      ReverseHopView F → List (ReverseHopView F) → List (ReverseHopView F)
  insert_by_ttl v [] = v ∷ []
  insert_by_ttl v (w ∷ ws) =
      let rest = insert_by_ttl v ws in if ltb_ℤ w.ttl v.ttl then w ∷ rest else v ∷ w ∷ ws

  unfoldable pub sorted_views : Table F → List (ReverseHopView F)
  sorted_views [] = []
  sorted_views ((k, v) ∷ m) = insert_by_ttl v (sorted_views m)

  unfoldable pub hop_view : HopStat F → HopView F
  hop_view h = record {
    ttl = h.ttl;
    ip = h.addr;
    sent = h.sent;
    recv = h.recv;
    last_rtt_ms = h.last_rtt_ms;
    best_rtt_ms = h.best_rtt_ms;
    worst_rtt_ms = h.worst_rtt_ms;
    avg_rtt_ms = h.avg_rtt_ms;
    std_dev_rtt_ms = h.std_dev_rtt_ms;
    baseline_rtt_ms = h.baseline_rtt_ms;
    loss_pct = h.loss_pct;
    terminus = h.terminus;
    suspect = false;
  }

  unfoldable pub reverse_view : ReverseHopUpdate F → ReverseHopView F
  reverse_view u = record {
    ttl = u.ttl;
    addr = u.addr;
    rtt_ms = u.rtt_ms;
    loss_pct = u.loss_pct;
    sent = u.sent;
    recv = u.recv;
    best_rtt_ms = u.best_rtt_ms;
    worst_rtt_ms = u.worst_rtt_ms;
    avg_rtt_ms = u.avg_rtt_ms;
    std_dev_rtt_ms = u.std_dev_rtt_ms;
    baseline_rtt_ms = u.baseline_rtt_ms;
    terminus = u.terminus;
  }

  unfoldable pub reverse_tcp_view : ReverseTcpHopUpdate F → ReverseHopView F
  reverse_tcp_view u = record {
    ttl = u.ttl;
    addr = u.addr;
    rtt_ms = u.rtt_ms;
    loss_pct = u.loss_pct;
    sent = u.sent;
    recv = u.recv;
    best_rtt_ms = u.best_rtt_ms;
    worst_rtt_ms = u.worst_rtt_ms;
    avg_rtt_ms = u.avg_rtt_ms;
    std_dev_rtt_ms = u.std_dev_rtt_ms;
    baseline_rtt_ms = u.baseline_rtt_ms;
    terminus = u.terminus;
  }

  unfoldable pub mark : List ℤ → HopView F → HopView F
  mark ttls h = if wanted ttls h.ttl then record h { suspect = true } else h

  unfoldable pub clear : HopView F → HopView F
  clear h = record h { suspect = false }
