-- ===== src/Tui/Runs.antt =====
-- internal/tui/model.go: when the callbacks are called, over any run of messages.
use dropline.Prelude.{
  List, [], ◌∷◌, Bool, true, false, not, ◌&&◌, ◌||◌, if◌then◌else◌, ◌≡◌, refl, ap, ◌∙◌, arith,
  Option-cases, inl, inr,
}
use dropline.Prelude.Int.{ℤ}
use dropline.Tui.{
  Callbacks, key_q, ctrl_c, esc, question, key_r, key_s, key_c, other, Msg, window_size, key_press,
  snapshot, closed, tick, Cmd, quit, no_cmd, wait_snapshot, tick_render, Called, nothing, reset,
  save, copy, Turn, Model, new_model, set_status, on_reset, on_save, on_copy, on_key, on_tick,
  on_msg, update, run,
}

abbrev pub is_quit : Cmd → Bool
is_quit quit = true
is_quit no_cmd = false
is_quit wait_snapshot = false
is_quit tick_render = false

module _ {S : Type 0} where
  abbrev ends : Msg S → Bool
  ends closed = true
  ends tick = false
  ends (window_size w h) = false
  ends (key_press k) = false
  ends (snapshot s) = false

  -- The snapshot channel has been closed.
  abbrev pub has_closed : List (Turn S) → Bool
  has_closed [] = false
  has_closed (t ∷ ts) = ends t.msg || has_closed ts

  -- What a key calls, of the callbacks, of whether the test is over and of whether help is shown.
  abbrev pub calls : Callbacks → Bool → Bool → Msg S → Called
  calls fns over help (key_press key_r) =
      if fns.reset_fn && (not over && not help) then reset else nothing
  calls fns over help (key_press key_s) =
      if fns.save_fn && (over && not help) then save else nothing
  calls fns over help (key_press key_c) =
      if fns.copy_fn && (over && not help) then copy else nothing
  calls fns over help msg = nothing

  -- A message that ends the program, by whether help is shown.
  abbrev pub leaves : Bool → Msg S → Bool
  leaves help (key_press key_q) = true
  leaves help (key_press ctrl_c) = true
  leaves help (key_press esc) = not help
  leaves help msg = false

  update-calls :
      (fns : Callbacks) (m : Model S) (t : Turn S) (msg : Msg S)
      → (on_msg fns m msg t).2 ≡ calls fns m.done m.help_visible msg
  unfolding on_msg on_key on_reset on_save on_copy
  update-calls fns m t closed = refl
  update-calls fns m t tick = refl
  update-calls fns m t (window_size w h) = refl
  update-calls fns m t (snapshot s) = refl
  update-calls fns m t (key_press key_q) = refl
  update-calls fns m t (key_press ctrl_c) = refl
  update-calls fns m t (key_press esc) = ground arith
  update-calls fns m t (key_press question) = refl
  update-calls fns m t (key_press key_r) = ground arith
  update-calls fns m t (key_press key_s) = ground arith
  update-calls fns m t (key_press key_c) = ground arith
  update-calls fns m t (key_press (other name)) = refl

  tick_done : (m : Model S) (now : ℤ) → (on_tick m now).done ≡ (m.done || false)
  unfolding on_tick
  tick_done m now = elim (Option-cases m.status) [
    | inl e ↦ rw e (ground arith)
    | inr (line, e) ↦ rw e (ground arith)
  ]

  update-done :
      (fns : Callbacks) (m : Model S) (t : Turn S) (msg : Msg S)
      → (on_msg fns m msg t).0.done ≡ (m.done || ends msg)
  unfolding on_msg on_key on_reset on_save on_copy set_status on_tick
  update-done fns m t closed = ground arith
  update-done fns m t tick = tick_done m t.now
  update-done fns m t (window_size w h) = ground arith
  update-done fns m t (snapshot s) = ground arith
  update-done fns m t (key_press key_q) = ground arith
  update-done fns m t (key_press ctrl_c) = ground arith
  update-done fns m t (key_press esc) = ground arith
  update-done fns m t (key_press question) = ground arith
  update-done fns m t (key_press key_r) = ground arith
  update-done fns m t (key_press key_s) = ground arith
  update-done fns m t (key_press key_c) = ground arith
  update-done fns m t (key_press (other name)) = ground arith

  update-leaves :
      (fns : Callbacks) (m : Model S) (t : Turn S) (msg : Msg S)
      → is_quit (on_msg fns m msg t).1 ≡ leaves m.help_visible msg
  unfolding on_msg on_key on_reset on_save on_copy
  update-leaves fns m t closed = refl
  update-leaves fns m t tick = refl
  update-leaves fns m t (window_size w h) = refl
  update-leaves fns m t (snapshot s) = refl
  update-leaves fns m t (key_press key_q) = refl
  update-leaves fns m t (key_press ctrl_c) = refl
  update-leaves fns m t (key_press esc) = ground arith
  update-leaves fns m t (key_press question) = refl
  update-leaves fns m t (key_press key_r) = ground arith
  update-leaves fns m t (key_press key_s) = ground arith
  update-leaves fns m t (key_press key_c) = ground arith
  update-leaves fns m t (key_press (other name)) = refl

  run-done :
      (fns : Callbacks) (m : Model S) (ts : List (Turn S))
      → (run fns m ts).done ≡ (m.done || has_closed ts)
  unfolding run update
  run-done fns m [] = ground arith
  run-done fns m (t ∷ ts) =
      run-done fns (on_msg fns m t.msg t).0 ts
      ∙ ap (λ (b : Bool). b || has_closed ts) (update-done fns m t t.msg)
      ∙ (ground arith)

  -- Over any run of messages from the start: the next message calls SaveFn or CopyFn exactly if it is
  -- their key, they are there, the snapshot channel has been closed and help is not shown, and
  -- ResetFn exactly if it is its key, it is there, the channel has not been closed and help is not
  -- shown; and the program ends exactly on q and Ctrl-C, and on Esc when help is not shown.
  pub run-calls :
      (fns : Callbacks) (zero : S) (ts : List (Turn S)) (t : Turn S)
      → ((update fns (run fns (new_model zero) ts) t).2
          ≡ calls fns (has_closed ts) (run fns (new_model zero) ts).help_visible t.msg)
        × (is_quit (update fns (run fns (new_model zero) ts) t).1
            ≡ leaves (run fns (new_model zero) ts).help_visible t.msg)
  unfolding update new_model
  run-calls fns zero ts t =
      let m = run fns (new_model zero) ts in
      (
        update-calls fns m t t.msg
            ∙ ap (λ (b : Bool). calls fns b m.help_visible t.msg)
                (run-done fns (new_model zero) ts),
        update-leaves fns m t t.msg,
      )
