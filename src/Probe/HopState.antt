-- ===== src/Probe/HopState.antt =====
-- internal/probe/hopstats.go, and `lossTimeout` and `buildSnapshot` of probe.go: the rolling
-- statistics of one hop. The int64 counters are integers here; `addr` is the text of the address,
-- `none` for nil. Durations are nanoseconds.
pub mod Replies
pub mod Rows
use dropline.Prelude.{
  ℕ, suc, ◌+◌, String, List, [], ◌∷◌, Bool, true, false, ◌||◌, Option, none, some, length, take,
  ltb, ◌==◌, if◌then◌else◌,
}
use dropline.Prelude.Int.{ℤ, pos, ltb_ℤ, eqb_ℤ, ◌+ℤ◌, ◌-ℤ◌}
use dropline.Prelude.Floats.{Floats}
use dropline.Probe.Hops.{HopStat, ProbeSnapshot}

pub record HopState (F : Type 0) : Type 0 where
  pub addr : Option String
  pub sent : ℤ
  pub recv : ℤ
  pub inflight : ℤ
  pub last : F
  pub best : F
  pub worst : F
  pub mean : F
  pub m2 : F
  pub ewma : F
  pub ewma_init : Bool
  pub terminus : Bool

abbrev pub base_loss_timeout : ℤ
base_loss_timeout = pos 2000000000

unfoldable pub loss_timeout : ℤ → ℤ
loss_timeout mtr_interval =
    let t = mtr_interval +ℤ mtr_interval in
    if ltb_ℤ base_loss_timeout t then t else base_loss_timeout

-- One reply: the responder, the round trip, and whether it was an EchoReply.
pub record Reply (F : Type 0) : Type 0 where
  pub from : Option String
  pub rtt_ms : F
  pub terminus : Bool

unfoldable pub first_address : Option String → Option String → Option String
first_address none from = from
first_address (some a) from = some a

module _ {F : Type 0} (fl : Floats F) where
  -- The first reply of a hop seeds the columns.
  unfoldable pub seed : HopState F → F → HopState F
  seed h rtt = record h { best = rtt; worst = rtt; mean = rtt }

  -- A later one moves them; mean and variance by Welford's algorithm, with the new count.
  unfoldable pub fold : HopState F → ℤ → F → HopState F
  fold h count rtt =
      let delta = fl.sub rtt h.mean in
      let mean' = fl.add h.mean (fl.div delta (fl.of_int count)) in
      record h {
        best = if fl.lt rtt h.best then rtt else h.best;
        worst = if fl.lt h.worst rtt then rtt else h.worst;
        mean = mean';
        m2 = fl.add h.m2 (fl.mul delta (fl.sub rtt mean'));
      }

  unfoldable pub ewma_alpha : F
  ewma_alpha = fl.div (fl.of_int (pos 2)) (fl.of_int (pos 10))

  -- 0.2 of the new sample and 0.8 of the old baseline.
  unfoldable pub smooth : HopState F → F → F
  smooth h rtt =
      if h.ewma_init
      then fl.add (fl.mul ewma_alpha rtt)
          (fl.mul (fl.div (fl.of_int (pos 8)) (fl.of_int (pos 10))) h.ewma)
      else rtt

  unfoldable pub record_reply : HopState F → Reply F → HopState F
  record_reply h r =
      let count = h.recv +ℤ pos 1 in
      let moved = if eqb_ℤ count (pos 1) then seed h r.rtt_ms else fold h count r.rtt_ms in
      record moved {
        addr = first_address h.addr r.from;
        recv = count;
        last = r.rtt_ms;
        ewma = smooth h r.rtt_ms;
        ewma_init = true;
        terminus = r.terminus || h.terminus;
      }

  unfoldable pub stddev : HopState F → F
  stddev h =
      if ltb_ℤ h.recv (pos 2)
      then fl.of_int (pos 0)
      else fl.sqrt (fl.div h.m2 (fl.of_int (h.recv -ℤ pos 1)))

  unfoldable pub hop_loss_pct : HopState F → F
  hop_loss_pct h =
      let settled = h.sent -ℤ h.inflight in
      if ltb_ℤ (pos 0) settled
      then fl.mul (fl.div (fl.of_int (settled -ℤ h.recv)) (fl.of_int settled)) (fl.of_int (pos 100))
      else fl.of_int (pos 0)

  unfoldable pub hop_snapshot : HopState F → ℕ → HopStat F
  hop_snapshot h ttl = record {
    ttl = pos ttl;
    addr = elim h.addr [ none ↦ "" | some a ↦ a ];
    sent = h.sent;
    recv = h.recv;
    last_rtt_ms = h.last;
    best_rtt_ms = h.best;
    worst_rtt_ms = h.worst;
    avg_rtt_ms = h.mean;
    std_dev_rtt_ms = stddev h;
    baseline_rtt_ms = h.ewma;
    loss_pct = hop_loss_pct h;
    terminus = h.terminus;
  }

  -- The loop of `buildSnapshot` over the hops from a TTL on.
  unfoldable pub rows_from : ℕ → List (HopState F) → List (HopStat F)
  rows_from ttl [] = []
  rows_from ttl (h ∷ hs) =
      let rest = rows_from (suc ttl) hs in
      if eqb_ℤ h.sent (pos 0) then rest else hop_snapshot h ttl ∷ rest

  -- `terminus` is 0 while it is unknown. One behind the table panics.
  unfoldable pub build_snapshot : List (HopState F) → ℕ → ℤ → Option (ProbeSnapshot F)
  build_snapshot hops terminus at =
      if ltb (length hops) terminus
      then none
      else some (record {
        at = at;
        hops = rows_from 1 (if ltb 0 terminus then take terminus hops else hops);
      })
