-- ===== src/Serve/Final.antt =====
-- cmd/dropline/serve.go: the Final of a session, and the tag of a hop that ends a reverse path.
-- net.ParseIP is a parameter. A conversion of a float to an int64 truncates.
pub mod Exact
use dropline.Prelude.{
  ℕ, ◌+◌, ◌*◌, ◌%◌, ◌^◌, String, str_eq, Bool, true, false, not, ◌||◌, Option, none, some,
  if◌then◌else◌,
}
use dropline.Prelude.Int.{ℤ, pos}
use dropline.Prelude.Words.{to_i64, to_u64}
use dropline.Prelude.Counters.{add64, is_pos64}
use dropline.Prelude.Floats.{Floats}
use dropline.Stream.Net.{Ip, ip_equal}
use dropline.Stream.Stats.{BurstBuckets, Snapshot}
use dropline.Probe.Hops.{HopStat}
use dropline.Control.Messages.{Hello, WireBursts, Final, type_final}

-- replyIP.Equal(clientIP), of what net.ParseIP returns; an address that is nil has no bytes.
unfoldable pub terminus_tag : Option Ip → Ip → String
terminus_tag none client_ip = ""
terminus_tag (some reply_ip) client_ip = if ip_equal reply_ip client_ip then "host" else "nat"

unfoldable pub classify_terminus : {F : Type 0} → (String → Option Ip) → HopStat F → Ip → String
classify_terminus parse_ip h client_ip =
    if not h.terminus
    then ""
    else if str_eq h.addr ""
    then ""
    else terminus_tag (parse_ip h.addr) client_ip

-- int64(s.MaxSeq) + 1, if there was any traffic.
unfoldable pub sent_of : {F : Type 0} → Snapshot F → ℤ
sent_of s = if is_pos64 s.recv || is_pos64 s.lost then to_i64 (add64 s.max_seq 1) else pos 0

unfoldable pub wire_bursts : BurstBuckets → WireBursts
wire_bursts b = record {
  one = to_i64 b.one;
  two = to_i64 b.two;
  three9 = to_i64 b.three9;
  ten99 = to_i64 b.ten99;
  hundred_up = to_i64 b.hundred_up;
  max = to_i64 b.max;
}

-- An atomic counter, if there is one.
unfoldable pub load_or : {A : Type 0} → A → Option A → A
load_or zero none = zero
load_or zero (some n) = n

module _ {F : Type 0} (fl : Floats F) where
  -- int64(x)
  unfoldable pub truncate : F → ℤ
  truncate x = if fl.lt x (fl.of_int (pos 0)) then fl.ceil x else fl.floor x

  unfoldable pub rate_of : Hello → Snapshot F → ℤ
  rate_of hello s =
      if fl.lt (fl.of_int (pos 0)) s.t
      then truncate
          (fl.div (fl.of_int (to_i64 ((s.recv * to_u64 hello.packet_size * 8) % 2 ^ 64))) s.t)
      else pos 0

  unfoldable pub build_final : Hello → Snapshot F → Option ℤ → Option F → Final F
  build_final hello s reverse_sent reverse_duration = record {
    type = type_final;
    stats = record {
      sent = sent_of s;
      recv = to_i64 s.recv;
      loss = to_i64 s.lost;
      out_of_order = to_i64 s.out_of_order;
      duplicates = to_i64 s.duplicates;
      jitter_ms = s.jitter_ms;
      kernel_drops = s.kernel_drops;
      local_drops = to_i64 s.local_drops;
      duration_s = s.t;
      bursts = wire_bursts s.bursts;
      rate_tx_bps = hello.rate_bps;
      rate_rx_bps = rate_of hello s;
      reverse_sent = load_or (pos 0) reverse_sent;
      reverse_duration_s = load_or (fl.of_int (pos 0)) reverse_duration;
      tcp_bytes_retrans = 0;
      tcp_bytes_out = 0;
    };
  }
