-- ===== src/Examples/Senders.antt =====
-- internal/stream: a sender of 1000-byte packets at 8 Mbit/s, one each millisecond, over 2 ms.
use dropline.Prelude.{ℕ, List, [], ◌∷◌, false, true, length, ◌≡◌, refl, if◌then◌else◌}
use dropline.Prelude.Int.{ℤ, pos, leb_ℤ, ◌+ℤ◌, ◌-ℤ◌}
use dropline.Prelude.Words.{wrap_i64, to_i64, to_u64}
use dropline.Stream.Sender.{
  Sender, Turn, Select, fired_at, done, after_select, interval, run, turn, is_over, wait_until,
  busy_wait, target_of, write_packet, header_of,
}

abbrev sender : Sender
sender = record {
  rate_bps = 8000000;
  packet_size = 1000;
  duration = pos 2000000;
  flow_id = 7;
  token = 99;
}

-- The timer, if it fires by a time, and else the context.
abbrev fires_by : ℤ → ℤ → Select
fires_by tx time = if leb_ℤ time tx then fired_at time else done

-- A turn that reads the clock at a time, waits with a timer that fires on time, and writes at
-- another.
abbrev at : ℕ → ℕ → Turn
at now tx = record {
  canceled = false;
  now = pos now;
  spins = [];
  wait_now = pos now;
  select = λ wait. fires_by (pos tx) (pos now +ℤ wait);
  tx = pos tx;
  written = true;
}

abbrev last_turns : List Turn
last_turns = at 1000010 2000007 ∷ at 2000010 2000020 ∷ []

abbrev turns : List Turn
turns = at 0 10 ∷ at 20 1000005 ∷ last_turns

-- The fourth turn finds the duration over.
three_packets : length (run sender (pos 0) 0 turns).0 ≡ 3
unfolding run turn is_over interval wait_until after_select busy_wait target_of wrap_i64 to_i64
    to_u64 write_packet header_of ◌-ℤ◌ ◌+ℤ◌
three_packets = refl
