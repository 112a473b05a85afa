-- ===== src/Probe/HopState/Rows.antt =====
-- internal/probe/probe.go: the rows of a snapshot.
use dropline.Prelude.{
  ℕ, suc, ◌+◌, ◌≤◌, ◌<◌, List, [], ◌∷◌, none, some, ◌⊎◌, length, length-take, take, ltb,
  if◌then◌else◌, ◌≡◌, refl, arith, Bool-cases, inl, inr,
}
use dropline.Prelude.Int.{ℤ, pos, eqb_ℤ}
use dropline.Prelude.Floats.{Floats}
use dropline.Probe.Hops.{HopStat, ProbeSnapshot}
use dropline.Probe.HopState.{HopState, hop_snapshot, rows_from, build_snapshot}

module _ {F : Type 0} (fl : Floats F) where
  -- Rows of the hops of a table, whose TTLs ascend from `low` on and stay below `high`.
  abbrev pub AreRows : ℕ → ℕ → List (HopStat F) → Type 0
  AreRows low high [] = Unit {0}
  AreRows low high (r ∷ rs) =
      (t : ℕ) × (r.ttl ≡ pos t) × (low ≤ t) × (t < high) × AreRows (suc t) high rs

  AreRows-weaken :
      (low low' high : ℕ) (rs : List (HopStat F))
      → low' ≤ low
      → AreRows low high rs
      → AreRows low' high rs
  AreRows-weaken low low' high [] h k = tt
  AreRows-weaken low low' high (r ∷ rs) h (t, e, l, g, k) = (t, e, omega arith, g, k)

  rows_from-AreRows :
      (ttl high : ℕ) (hs : List (HopState F))
      → ttl + length hs ≤ high
      → AreRows ttl high (rows_from fl ttl hs)
  unfolding rows_from
  rows_from-AreRows ttl high [] h = tt
  rows_from-AreRows ttl high (s ∷ hs) h =
      let rest = rows_from-AreRows (suc ttl) high hs (omega arith) in
      elim (Bool-cases (eqb_ℤ s.sent (pos 0))) [
        | inl unsent ↦ rw unsent (AreRows-weaken (suc ttl) ttl high _ (omega arith) rest)
        | inr probed ↦ rw probed (ttl, unfold hop_snapshot in refl, omega arith, omega arith, rest)
      ]

  cut-AreRows :
      (hops : List (HopState F)) (terminus : ℕ)
      → AreRows 1
          (if ltb 0 terminus then terminus + 1 else length hops + 1)
          (rows_from fl 1 (if ltb 0 terminus then take terminus hops else hops))
  cut-AreRows hops terminus = elim (Bool-cases (ltb 0 terminus)) [
    | inl known ↦ rw known (
        rows_from-AreRows 1 (terminus + 1) (take terminus hops)
          (omega (arith, length-take terminus hops)))
    | inr unknown ↦ rw unknown (rows_from-AreRows 1 (length hops + 1) hops (omega arith))
  ]

  -- A snapshot panics exactly if the terminus is behind the table. Else its rows have strictly
  -- ascending TTLs from 1 on; once the terminus is known, none is behind it, and before, none is
  -- behind the table.
  pub build_snapshot-AreRows :
      (hops : List (HopState F)) (terminus : ℕ) (at : ℤ)
      → ((length hops < terminus) × (build_snapshot fl hops terminus at ≡ none))
        ⊎ ((terminus ≤ length hops)
            × (snap : ProbeSnapshot F) × (build_snapshot fl hops terminus at ≡ some snap)
            × AreRows 1 (if ltb 0 terminus then terminus + 1 else length hops + 1) snap.hops)
  unfolding build_snapshot
  build_snapshot-AreRows hops terminus at = elim (Bool-cases (ltb (length hops) terminus)) [
    | inl behind ↦ inl (ground arith, rw behind refl)
    | inr there ↦ inr (
      ground arith,
      record {
        at = at;
        hops = rows_from fl 1 (if ltb 0 terminus then take terminus hops else hops);
      },
      rw there refl,
      cut-AreRows hops terminus,
    )
  ]

  -- With a terminus of the table, there is a snapshot.
  pub snapshot_exists :
      (hops : List (HopState F)) (terminus : ℕ) (at : ℤ)
      → terminus ≤ length hops
      → (snap : ProbeSnapshot F) × (build_snapshot fl hops terminus at ≡ some snap)
  snapshot_exists hops terminus at small = elim (build_snapshot-AreRows hops terminus at) [
    | inl (behind, panics) ↦ absurd (omega arith)
    | inr (there, snap, e, rows) ↦ (snap, e)
  ]
