-- ===== src/Probe/Hops.antt =====
-- internal/probe/probe.go and probe_tcp.go: the snapshots that the probers emit. The `time.Time` of
-- a snapshot is in nanoseconds of the wall clock.
use dropline.Prelude.{ℕ, String, Bool, List}
use dropline.Prelude.Int.{ℤ}

pub record HopStat (F : Type 0) : Type 0 where
  pub ttl : ℤ
  pub addr : String
  pub sent : ℤ
  pub recv : ℤ
  pub last_rtt_ms : F
  pub best_rtt_ms : F
  pub worst_rtt_ms : F
  pub avg_rtt_ms : F
  pub std_dev_rtt_ms : F
  pub baseline_rtt_ms : F
  pub loss_pct : F
  pub terminus : Bool

pub record ProbeSnapshot (F : Type 0) : Type 0 where
  pub at : ℤ
  pub hops : List (HopStat F)

pub record TcpSnapshot (F : Type 0) : Type 0 where
  pub at : ℤ
  pub supported : Bool
  pub port : ℕ
  pub hops : List (HopStat F)
