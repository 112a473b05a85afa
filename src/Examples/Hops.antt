-- ===== src/Examples/Hops.antt =====
-- internal/probe: a hop with two replies, and a table of three hops.
use dropline.Prelude.{
  ◌+◌, ◌≤◌, ◌<◌, ◌⊎◌, List, [], ◌∷◌, true, false, none, some, All, length, ltb, if◌then◌else◌, ◌≡◌,
  refl,
}
use dropline.Prelude.Int.{ℤ, pos}
use dropline.Probe.Hops.{ProbeSnapshot}
use dropline.Probe.HopState.{HopState, Reply, build_snapshot}
use dropline.Probe.HopState.Rows.{AreRows, build_snapshot-AreRows}
use dropline.Probe.HopState.Replies.{
  record_all, record_all_lem, first_of, addresses, any_terminus, IsWithin,
}
use dropline.Examples.Numbers.{numbers, ltb_ℤ-irrefl, ltb_ℤ-trans}

abbrev silent : HopState ℤ
silent = record {
  addr = none;
  sent = pos 2;
  recv = pos 0;
  inflight = pos 2;
  last = pos 0;
  best = pos 0;
  worst = pos 0;
  mean = pos 0;
  m2 = pos 0;
  ewma = pos 0;
  ewma_init = false;
  terminus = false;
}

abbrev replies : List (Reply ℤ)
replies =
    record { from = some "192.0.2.1"; rtt_ms = pos 20; terminus = false }
    ∷ record { from = some "192.0.2.9"; rtt_ms = pos 12; terminus = true }
    ∷ []

record_all_lem_example :
    ((record_all numbers silent replies).recv ≡ pos (length replies))
    × ((record_all numbers silent replies).addr ≡ first_of silent.addr (addresses replies))
    × ((record_all numbers silent replies).terminus ≡ any_terminus silent.terminus replies)
    × All
        (IsWithin numbers
          (record_all numbers silent replies).best
          (record_all numbers silent replies).worst)
        replies
record_all_lem_example = record_all_lem numbers silent replies ltb_ℤ-irrefl ltb_ℤ-trans refl

abbrev hops : List (HopState ℤ)
hops = silent ∷ silent ∷ silent ∷ []

build_snapshot-AreRows_example :
    ((length hops < 2) × (build_snapshot numbers hops 2 (pos 0) ≡ none))
    ⊎ ((2 ≤ length hops)
        × (snap : ProbeSnapshot ℤ) × (build_snapshot numbers hops 2 (pos 0) ≡ some snap)
        × AreRows numbers 1 (if ltb 0 2 then 2 + 1 else length hops + 1) snap.hops)
build_snapshot-AreRows_example = build_snapshot-AreRows numbers hops 2 (pos 0)
