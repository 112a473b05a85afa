-- ===== src/Tui.antt =====
-- internal/tui/model.go: the state machine of the terminal interface. What a message comes with that
-- the model asks for elsewhere, the time and what a callback returns, stands in a record with it. The
-- interface's Cmds are values, and so is the callback that an update has called.
pub mod Runs
use dropline.Prelude.{
  ℕ, ◌*◌, String, List, [], ◌∷◌, ◌++◌, Bool, true, false, not, ◌&&◌, ◌||◌, Option, none, some,
  if◌then◌else◌,
}
use dropline.Prelude.Int.{ℤ, pos, leb_ℤ, ltb_ℤ, ◌-ℤ◌}

-- Which of the callbacks are not nil.
pub record Callbacks : Type 0 where
  pub reset_fn : Bool
  pub save_fn : Bool
  pub copy_fn : Bool

-- What msg.String() tells apart.
pub data Key : Type 0 where
  key_q ctrl_c esc question key_r key_s key_c : Key
  other : String → Key

pub data Msg (S : Type 0) : Type 0 where
  window_size : ℤ → ℤ → Msg S
  key_press : Key → Msg S
  snapshot : S → Msg S
  closed tick : Msg S

-- The footer lines that `setStatus` is called with.
pub data Status : Type 0 where
  history_reset save_waiting copy_waiting : Status
  save_failed wrote copy_failed : String → Status
  copied : ℤ → Status

pub data Cmd : Type 0 where
  no_cmd quit wait_snapshot tick_render : Cmd

pub data Called : Type 0 where
  nothing reset save copy : Called

-- The path or the byte count that a callback returns, or the text of its error.
pub data Saved : Type 0 where
  path error : String → Saved

pub data Copied : Type 0 where
  bytes : ℤ → Copied
  error : String → Copied

pub record Turn (S : Type 0) : Type 0 where
  pub msg : Msg S
  pub now : ℤ
  pub saved : Saved
  pub copied : Copied

pub record Model (S : Type 0) : Type 0 where
  pub latest : S
  pub width : ℤ
  pub height : ℤ
  pub done : Bool
  pub status : Option Status
  pub status_at : ℤ
  pub help_visible : Bool
  pub bar_width : ℤ

abbrev pub status_decay : ℕ
status_decay = 3 * 1000000000

unfoldable pub saved_status : Saved → Status
saved_status (Saved.path p) = wrote p
saved_status (Saved.error e) = save_failed e

unfoldable pub copied_status : Copied → Status
copied_status (bytes n) = Status.copied n
copied_status (Copied.error e) = copy_failed e

unfoldable pub bar_width_of : ℤ → ℤ
bar_width_of width = let w = width -ℤ pos 35 in if ltb_ℤ w (pos 10) then pos 10 else w

module _ {S : Type 0} where
  -- `newModel`, of the zero snapshot.
  unfoldable pub new_model : S → Model S
  new_model zero = record {
    latest = zero;
    width = pos 80;
    height = pos 24;
    done = false;
    status = none;
    status_at = pos 0;
    help_visible = false;
    bar_width = pos 45;
  }

  unfoldable pub set_status : Model S → Status → ℤ → Model S
  set_status m line now = record m { status = some line; status_at = now }

  unfoldable pub on_reset : Callbacks → Model S → ℤ → Model S × Cmd × Called
  on_reset fns m now =
      if fns.reset_fn && (not m.done && not m.help_visible)
      then (set_status m history_reset now, no_cmd, reset)
      else (m, no_cmd, nothing)

  unfoldable pub on_save : Callbacks → Model S → ℤ → Saved → Model S × Cmd × Called
  on_save fns m now saved =
      if m.help_visible || not fns.save_fn
      then (m, no_cmd, nothing)
      else if not m.done
      then (set_status m save_waiting now, no_cmd, nothing)
      else (set_status m (saved_status saved) now, no_cmd, save)

  unfoldable pub on_copy : Callbacks → Model S → ℤ → Copied → Model S × Cmd × Called
  on_copy fns m now answer =
      if m.help_visible || not fns.copy_fn
      then (m, no_cmd, nothing)
      else if not m.done
      then (set_status m copy_waiting now, no_cmd, nothing)
      else (set_status m (copied_status answer) now, no_cmd, copy)

  unfoldable pub on_key : Callbacks → Model S → Key → Turn S → Model S × Cmd × Called
  on_key fns m key_q t = (m, quit, nothing)
  on_key fns m ctrl_c t = (m, quit, nothing)
  on_key fns m esc t =
      if m.help_visible
      then (record m { help_visible = false }, no_cmd, nothing)
      else (m, quit, nothing)
  on_key fns m question t = (record m { help_visible = not m.help_visible }, no_cmd, nothing)
  on_key fns m key_r t = on_reset fns m t.now
  on_key fns m key_s t = on_save fns m t.now t.saved
  on_key fns m key_c t = on_copy fns m t.now t.copied
  on_key fns m (other name) t = (m, no_cmd, nothing)

  unfoldable pub on_tick : Model S → ℤ → Model S
  on_tick m now = elim m.status [
    | none ↦ m
    | some line ↦
        if leb_ℤ (pos status_decay) (now -ℤ m.status_at) then record m { status = none } else m
  ]

  unfoldable pub on_msg : Callbacks → Model S → Msg S → Turn S → Model S × Cmd × Called
  on_msg fns m (window_size width height) t =
      (record m { width = width; height = height; bar_width = bar_width_of width }, no_cmd, nothing)
  on_msg fns m (key_press k) t = on_key fns m k t
  on_msg fns m (snapshot snap) t = (record m { latest = snap }, wait_snapshot, nothing)
  on_msg fns m closed t = (record m { done = true }, no_cmd, nothing)
  on_msg fns m tick t = (on_tick m t.now, tick_render, nothing)

  -- `Update`
  unfoldable pub update : Callbacks → Model S → Turn S → Model S × Cmd × Called
  update fns m t = on_msg fns m t.msg t

  -- The model behind updates, oldest first.
  unfoldable pub run : Callbacks → Model S → List (Turn S) → Model S
  run fns m [] = m
  run fns m (t ∷ ts) = run fns (update fns m t).0 ts

-- The parts of the footer.
pub data Hint : Type 0 where
  test_complete copy_hint save_hint help_hint exit_hint quit_hint reset_hint : Hint

pub data Footer : Type 0 where
  status_line : Status → Footer
  hints : List Hint → Footer

unfoldable pub hint_if : Bool → Hint → List Hint
hint_if present h = if present then h ∷ [] else []

unfoldable pub hints_of : Callbacks → Bool → List Hint
hints_of fns done =
    if done
    then test_complete
      ∷ (hint_if fns.copy_fn copy_hint
          ++ (hint_if fns.save_fn save_hint ++ (help_hint ∷ exit_hint ∷ [])))
    else hint_if fns.copy_fn copy_hint
      ++ (hint_if fns.save_fn save_hint
          ++ (hint_if fns.reset_fn reset_hint ++ (help_hint ∷ quit_hint ∷ [])))

-- `footerText`
unfoldable pub footer_text : {S : Type 0} → Callbacks → Model S → Footer
footer_text fns m = elim m.status [
  | none ↦ hints (hints_of fns m.done)
  | some line ↦ status_line line
]
