-- ===== src/Stream/KernelDrops.antt =====
-- internal/stream/kerneldrops.go: the sampler that reports what a counter of the host has grown by.
-- A reading of the platform's sampler is a value, `none` an error.
pub mod Window
use dropline.Prelude.{List, [], ◌∷◌, Bool, true, false, not, Option, none, some, if◌then◌else◌}
use dropline.Prelude.Int.{ℤ, pos, ltb_ℤ, ◌-ℤ◌}
use dropline.Prelude.Words.{wrap_i64}

-- The wrapper's fields besides the sampler that it wraps.
pub record BaselineSampler : Type 0 where
  pub baseline : ℤ
  pub ready : Bool

abbrev pub new_baseline_sampler : BaselineSampler
new_baseline_sampler = record { baseline = pos 0; ready = false }

-- `Sample` of a reading that is no error: the wrapper and what it reports.
unfoldable pub report_of : BaselineSampler → ℤ → BaselineSampler × ℤ
report_of b n =
    if not b.ready
    then (record { baseline = n; ready = true }, pos 0)
    else if ltb_ℤ n b.baseline
    then (record b { baseline = n }, pos 0)
    else (b, wrap_i64 (n -ℤ b.baseline))

-- `Sample`; an error leaves the wrapper as it was, and is returned.
unfoldable pub sample : BaselineSampler → Option ℤ → BaselineSampler × Option ℤ
sample b none = (b, none)
sample b (some n) = let r = report_of b n in (r.0, some r.1)

-- What the receiver has at hand after some samples: the wrapper, and the last report that was no
-- error.
unfoldable pub sample_all : BaselineSampler → ℤ → List (Option ℤ) → BaselineSampler × ℤ
sample_all b last [] = (b, last)
sample_all b last (r ∷ rs) =
    let s = sample b r in sample_all s.0 (elim s.1 [ none ↦ last | some n ↦ n ]) rs
