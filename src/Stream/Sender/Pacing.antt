-- ===== src/Stream/Sender/Pacing.antt =====
-- internal/stream/sender.go: the packets of a run are numbered in order, none goes out before its
-- time, and the duration bounds them.
use dropline.Prelude.{ℕ, suc, ◌+◌, ◌*◌, ◌<◌, ◌⊎◌, List, length, ◌≡◌}
use dropline.Prelude.Int.{ℤ, ◌≤ℤ◌}
use dropline.Stream.Header.{Header}
use dropline.Stream.Sender.{Sender}
use dropline.Stream.Sender.Timing.{period, due, IsPaced}

-- The packet before one of a run, if there is one, was due by a time.
abbrev WasDue : Sender → ℤ → ℕ → ℤ → Type 0
WasDue s t0 seq last = (seq ≡ 0) ⊎ ((j : ℕ) × (seq ≡ suc j) × (due s t0 j ≤ℤ last))

-- Packets from one on that are paced, and not too many for the duration.
abbrev Both : Sender → ℤ → ℕ → ℕ → List Header → Type 0
Both s t0 seq d log =
    IsPaced s t0 seq log × ((d ≡ 0) ⊎ ((seq + length log) * period s < d + 2 * period s))
