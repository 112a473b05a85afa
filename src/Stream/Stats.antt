-- ===== src/Stream/Stats.antt =====
-- internal/stream/stats.go: the receiver's accumulator. Times are nanoseconds of the wall clock.
-- The int64 counters are kept as their bit patterns (Prelude/Counters); `seen` is the map's key
-- set, as the list of its keys, newest first. The mutex and the atomics of the source serialise
-- the methods, so that each is one function here.
pub mod Missing
pub mod Conservation
pub mod Reference
pub mod Order
pub mod Bursts
use dropline.Prelude.{
  ℕ, ◌+◌, ◌-◌, ◌^◌, List, [], ◌∷◌, length, contains, ltb, leb, ◌==◌, if◌then◌else◌, Bool, true,
  false, ◌≡◌, ◌⊎◌, inl, inr, arith, not, ◌&&◌, ◌||◌, ◌*◌, ◌/◌, ◌%◌, suc,
}
use dropline.Prelude.Int.{ℤ, pos, negsuc, ◌-ℤ◌}
use dropline.Prelude.Words.{wrap_i64}
use dropline.Prelude.Counters.{add64, sub64, is_pos64}
use dropline.Prelude.Floats.{Floats}
use dropline.Stream.Header.{Header}

abbrev pub max_acceptable_gap : ℕ
max_acceptable_gap = 2 ^ 20

abbrev pub max_seen_entries : ℕ
max_seen_entries = 2 ^ 18

abbrev pub max_transit_ms : ℕ
max_transit_ms = 60 * 60 * 1000

-- math.MaxInt64
abbrev pub max_int64 : ℕ
max_int64 = 2 ^ 63 - 1

pub record BurstBuckets : Type 0 where
  pub one : ℕ
  pub two : ℕ
  pub three9 : ℕ
  pub ten99 : ℕ
  pub hundred_up : ℕ
  pub max : ℕ

abbrev pub no_bursts : BurstBuckets
no_bursts = record { one = 0; two = 0; three9 = 0; ten99 = 0; hundred_up = 0; max = 0 }

-- The switch of `recordBurst`; its argument is a gap, and so below 2 ^ 63.
unfoldable pub count_burst : BurstBuckets → ℕ → BurstBuckets
count_burst b n =
    if n == 1
    then record b { one = add64 b.one 1 }
    else if n == 2
    then record b { two = add64 b.two 1 }
    else if leb n 9
    then record b { three9 = add64 b.three9 1 }
    else if leb n 99
    then record b { ten99 = add64 b.ten99 1 }
    else record b { hundred_up = add64 b.hundred_up 1 }

unfoldable pub record_burst : BurstBuckets → ℕ → BurstBuckets
record_burst b n =
    if n == 0
    then b
    else let b' = count_burst b n in if ltb b'.max n then record b' { max = n } else b'

-- The loss accounting of the accumulator, which reads no clock.
pub record Counts : Type 0 where
  pub recv : ℕ
  pub out_of_order : ℕ
  pub duplicates : ℕ
  pub lost : ℕ
  pub expected_seq : ℕ
  pub max_seq : ℕ
  pub seen_any : Bool
  pub seen : List ℕ
  pub bursts : BurstBuckets

-- The RFC 3550 state.
pub record Jitter (F : Type 0) : Type 0 where
  pub last_arrival : ℤ
  pub last_transit_ms : F
  pub has_transit : Bool
  pub jitter_ms : F

pub record Accumulator (F : Type 0) : Type 0 where
  pub t0 : ℤ
  pub counts : Counts
  pub kernel_drops : ℤ
  pub local_drops : ℕ
  pub jitter : Jitter F

pub record Snapshot (F : Type 0) : Type 0 where
  pub t : F
  pub recv : ℕ
  pub lost : ℕ
  pub out_of_order : ℕ
  pub duplicates : ℕ
  pub local_drops : ℕ
  pub kernel_drops : ℤ
  pub max_seq : ℕ
  pub jitter_ms : F
  pub bursts : BurstBuckets

abbrev pub no_counts : Counts
no_counts = record {
  recv = 0;
  out_of_order = 0;
  duplicates = 0;
  lost = 0;
  expected_seq = 0;
  max_seq = 0;
  seen_any = false;
  seen = [];
  bursts = no_bursts;
}

-- The two guards of `Observe` that reject before any state is touched.
unfoldable pub rejects : Counts → ℕ → Bool
rejects c seq =
    if ltb max_int64 seq
    then true
    else c.seen_any && ltb c.expected_seq seq && ltb max_acceptable_gap (seq - c.expected_seq)

-- `if len(a.seen) < maxSeenEntries { a.seen[h.Seq] = struct{}{} }; a.recv++`
unfoldable pub remember : Counts → ℕ → Counts
remember c seq = record c {
  seen = if ltb (length c.seen) max_seen_entries then seq ∷ c.seen else c.seen;
  recv = add64 c.recv 1;
}

-- The three branches on a fresh packet. `h.Seq + 1` is below 2 ^ 64 behind the first guard.
unfoldable pub first_packet : Counts → ℕ → Counts
first_packet c seq = record c {
  seen_any = true;
  max_seq = seq;
  expected_seq = seq + 1;
  bursts = record_burst c.bursts seq;
  lost = add64 c.lost seq;
}

unfoldable pub in_order : Counts → ℕ → Counts
in_order c seq =
    let gap = seq - c.expected_seq in
    record c {
      bursts = record_burst c.bursts gap;
      lost = add64 c.lost gap;
      expected_seq = seq + 1;
      max_seq = if ltb c.max_seq seq then seq else c.max_seq;
    }

unfoldable pub late : Counts → Counts
late c = record c {
  out_of_order = add64 c.out_of_order 1;
  lost = if is_pos64 c.lost then sub64 c.lost 1 else c.lost;
}

unfoldable pub account : Counts → ℕ → Counts
account c seq =
    if not c.seen_any
    then first_packet c seq
    else if leb c.expected_seq seq
    then in_order c seq
    else late c

-- What `Observe` does to the counts.
unfoldable pub observe_seq : Counts → ℕ → Counts
observe_seq c seq =
    if rejects c seq
    then c
    else if contains seq c.seen
    then record c { duplicates = add64 c.duplicates 1 }
    else account (remember c seq) seq

module _ {F : Type 0} ⦃fl : Floats F⦄ where
  unfoldable pub float_abs : F → F
  float_abs x = if fl.lt x (fl.of_int (pos 0)) then fl.sub (fl.of_int (pos 0)) x else x

  -- `float64(arrival.UnixNano()-h.TxUnixNS) / 1e6`, whose subtraction wraps.
  unfoldable pub transit_ms : Header → ℤ → F
  transit_ms h arrival =
      fl.div (fl.of_int (wrap_i64 (arrival -ℤ h.tx_unix_ns))) (fl.of_int (pos 1000000))

  unfoldable pub update_jitter : Jitter F → Header → ℤ → Jitter F
  update_jitter j h arrival =
      let transit = transit_ms h arrival in
      if fl.lt (fl.of_int (pos max_transit_ms)) (float_abs transit)
      then j
      else if not j.has_transit
      then record j { has_transit = true; last_transit_ms = transit; last_arrival = arrival }
      else let d = float_abs (fl.sub transit j.last_transit_ms) in
        record j {
          jitter_ms = fl.add j.jitter_ms (fl.div (fl.sub d j.jitter_ms) (fl.of_int (pos 16)));
          last_transit_ms = transit;
          last_arrival = arrival;
        }

  -- `NewAccumulator`; the zero `time.Time` of `lastArrival` is read by nothing.
  unfoldable pub new_accumulator : ℤ → Accumulator F
  new_accumulator t0 = record {
    t0 = t0;
    counts = no_counts;
    kernel_drops = pos 0;
    local_drops = 0;
    jitter = record {
      last_arrival = pos 0;
      last_transit_ms = fl.of_int (pos 0);
      has_transit = false;
      jitter_ms = fl.of_int (pos 0);
    };
  }

  -- `Observe`: a rejected packet and a duplicate leave the jitter alone.
  unfoldable pub observe : Accumulator F → Header → ℤ → Accumulator F
  observe a h arrival =
      if rejects a.counts h.seq || contains h.seq a.counts.seen
      then record a { counts = observe_seq a.counts h.seq }
      else record a {
        counts = observe_seq a.counts h.seq;
        jitter = update_jitter a.jitter h arrival;
      }

  unfoldable pub add_local_drop : Accumulator F → ℕ → Accumulator F
  add_local_drop a n = record a { local_drops = add64 a.local_drops n }

  unfoldable pub set_kernel_drops : Accumulator F → ℤ → Accumulator F
  set_kernel_drops a n = record a { kernel_drops = n }

  -- `now.Sub(t0).Seconds()`: the whole seconds and the rest of nanoseconds.
  unfoldable pub seconds : ℤ → F
  seconds (pos d) =
      fl.add (fl.of_int (pos (d / 1000000000)))
        (fl.div (fl.of_int (pos (d % 1000000000))) (fl.of_int (pos 1000000000)))
  seconds (negsuc d) =
      let n = suc d in
      fl.add (fl.of_int (pos 0 -ℤ pos (n / 1000000000)))
        (fl.div (fl.of_int (pos 0 -ℤ pos (n % 1000000000))) (fl.of_int (pos 1000000000)))

  unfoldable pub snapshot : Accumulator F → ℤ → Snapshot F
  snapshot a now = record {
    t = seconds (now -ℤ a.t0);
    recv = a.counts.recv;
    lost = a.counts.lost;
    out_of_order = a.counts.out_of_order;
    duplicates = a.counts.duplicates;
    local_drops = a.local_drops;
    kernel_drops = a.kernel_drops;
    max_seq = a.counts.max_seq;
    jitter_ms = a.jitter.jitter_ms;
    bursts = a.counts.bursts;
  }

-- The counts after a list of sequence numbers, oldest first.
unfoldable pub observe_all : Counts → List ℕ → Counts
observe_all c [] = c
observe_all c (seq ∷ seqs) = observe_all (observe_seq c seq) seqs

-- The branches of `Observe`, by their guards.
pub observe_seq_cases :
    (c : Counts) (seq : ℕ)
    → ((rejects c seq ≡ true) × (observe_seq c seq ≡ c))
      ⊎ ((rejects c seq ≡ false)
          × (contains seq c.seen ≡ true)
          × (observe_seq c seq ≡ record c { duplicates = add64 c.duplicates 1 }))
      ⊎ ((rejects c seq ≡ false)
          × (contains seq c.seen ≡ false)
          × (observe_seq c seq ≡ account (remember c seq) seq))
unfolding observe_seq
observe_seq_cases c seq = ground arith

module _ (c : Counts) (seq : ℕ) where
  pub account-first : c.seen_any ≡ false → account c seq ≡ first_packet c seq
  unfolding account
  account-first e = rw e

  pub account-in_order :
      c.seen_any ≡ true → leb c.expected_seq seq ≡ true → account c seq ≡ in_order c seq
  unfolding account
  account-in_order e h = ground arith

  pub account-late : c.seen_any ≡ true → leb c.expected_seq seq ≡ false → account c seq ≡ late c
  unfolding account
  account-late e h = ground arith
