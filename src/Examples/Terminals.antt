-- ===== src/Examples/Terminals.antt =====
-- internal/tui and internal/stream/kerneldrops.go: a test that is saved, and a counter that is reset.
use dropline.Prelude.{ℕ, List, [], ◌∷◌, true, false, none, some, ◌≡◌, arith, Option, ◌-◌}
use dropline.Prelude.Int.{pos}
use dropline.Tui.{
  Callbacks, Msg, key_press, key_s, snapshot, closed, Turn, bytes, update, run, new_model, path,
}
use dropline.Tui.Runs.{run-calls, calls, has_closed, leaves, is_quit}
use dropline.Stream.KernelDrops.{new_baseline_sampler, sample_all}
use dropline.Stream.KernelDrops.Window.{sample_all_lem, readings, least, latest}

abbrev callbacks : Callbacks
callbacks = record { reset_fn = true; save_fn = true; copy_fn = false }

abbrev at : ℕ → Msg ℕ → Turn ℕ
at t msg = record { msg = msg; now = pos t; saved = path "a.json"; copied = bytes (pos 0) }

-- A key that comes too soon, a snapshot, and the end of the test.
abbrev before : List (Turn ℕ)
before = at 1 (key_press key_s) ∷ at 2 (snapshot 7) ∷ at 3 closed ∷ []

abbrev saving : Turn ℕ
saving = at 4 (key_press key_s)

run-calls_example :
    ((update callbacks (run callbacks (new_model 0) before) saving).2
      ≡ calls callbacks
          (has_closed before)
          (run callbacks (new_model 0) before).help_visible
          saving.msg)
    × (is_quit (update callbacks (run callbacks (new_model 0) before) saving).1
        ≡ leaves (run callbacks (new_model 0) before).help_visible saving.msg)
run-calls_example = run-calls callbacks 0 before saving

-- Five at the start, an error, nine, a reset to two, and six.
abbrev counter : List (Option ℕ)
counter = none ∷ some 9 ∷ some 2 ∷ some 6 ∷ []

sample_all_lem_example :
    sample_all new_baseline_sampler (pos 0) (some (pos 5) ∷ readings counter) ≡ (
      record { baseline = pos (least 5 counter); ready = true },
      pos (latest 5 counter - least 5 counter),
    )
sample_all_lem_example =
    sample_all_lem 5 counter (tt, (omega arith, (omega arith, (omega arith, tt))))
