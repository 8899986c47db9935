-- ===== src/Cli/Answers.antt =====
-- `Update` of cmd/cli/main.go answers every message.
use btrfs_snapah_pow.Base.{
  ℕ, ◌-◌, ◌<◌, ◌≡◌, refl, ◌∙◌, ap, true, Option, none, some, List, [], ◌∷◌, nat_eq, ltb, length,
  Bool-cases, inl, inr, arith,
}
use btrfs_snapah_pow.Cli.{
  Screen, screen_login, screen_menu, screen_nodes, screen_snapshots, screen_events, screen_policies,
  Key, ctrl_c, esc, tab, up, down, enter, backspace, other, Widgets, Model, Msg, window_size,
  key_msg, login_done, err_msg, nodes_done, snaps_done, events_done, policies_done, Cmd,
  menu_length, choose, pass_on, dispatch, update_menu, update_table, update, initial_model, run,
}
use btrfs_snapah_pow.Cli.Forms.{IsWellFormed, Safe, either-Safe, update_login-Safe}

module _ {I T C : Type 0} (ui : Widgets I T C) where
  -- A change that leaves the form alone and keeps the cursor on the menu.
  moved :
      (m m' : Model I T)
      → IsWellFormed ui m
      → m'.inputs ≡ m.inputs
      → m'.focused ≡ m.focused
      → m'.cursor < menu_length
      → IsWellFormed ui m'
  moved m m' h i f c = record {
    two_inputs = ap length i ∙ h.two_inputs;
    focused_in_range = omega (arith, f, h.focused_in_range);
    cursor_in_range = c;
  }

  choose-Safe : (n : ℕ) (m : Model I T) → IsWellFormed ui m → Safe ui (choose ui n m)
  unfolding choose
  choose-Safe n m h =
      let loading : IsWellFormed ui (record m { loading = true }) =
        moved m (record m { loading = true }) h refl refl h.cursor_in_range in
      either-Safe ui (nat_eq n 0) _ _ loading (
        either-Safe ui (nat_eq n 1) _ _ loading (
          either-Safe ui (nat_eq n 2) _ _ loading
            (either-Safe ui (nat_eq n 3) _ _ loading (either-Safe ui (nat_eq n 4) _ _ h h))))

  update_menu-Safe : (k : Key) (m : Model I T) → IsWellFormed ui m → Safe ui (update_menu ui k m)
  unfolding update_menu
  update_menu-Safe ctrl_c m h = h
  update_menu-Safe esc m h = h
  update_menu-Safe up m h = elim (Bool-cases (ltb 0 m.cursor)) [
    | inl above ↦ rw above (moved m _ h refl refl (omega (arith, h.cursor_in_range)))
    | inr top ↦ rw top h
  ]
  update_menu-Safe down m h = elim (Bool-cases (ltb m.cursor (menu_length - 1))) [
    | inl above ↦ rw above (moved m _ h refl refl (ground arith))
    | inr bottom ↦ rw bottom h
  ]
  update_menu-Safe enter m h = choose-Safe m.cursor m h
  update_menu-Safe tab m h = h
  update_menu-Safe backspace m h = h
  update_menu-Safe (other s) m h = h

  pass_on-Safe :
      (s : Screen) (k : Key) (m : Model I T) → IsWellFormed ui m → Safe ui (pass_on ui s k m)
  unfolding pass_on
  pass_on-Safe screen_login k m h = h
  pass_on-Safe screen_menu k m h = h
  pass_on-Safe screen_nodes k m h = moved m _ h refl refl h.cursor_in_range
  pass_on-Safe screen_snapshots k m h = moved m _ h refl refl h.cursor_in_range
  pass_on-Safe screen_events k m h = moved m _ h refl refl h.cursor_in_range
  pass_on-Safe screen_policies k m h = moved m _ h refl refl h.cursor_in_range

  update_table-Safe : (k : Key) (m : Model I T) → IsWellFormed ui m → Safe ui (update_table ui k m)
  unfolding update_table
  update_table-Safe esc m h = moved m _ h refl refl (omega arith)
  update_table-Safe backspace m h = moved m _ h refl refl (omega arith)
  update_table-Safe ctrl_c m h = h
  update_table-Safe tab m h = pass_on-Safe m.screen tab m h
  update_table-Safe up m h = pass_on-Safe m.screen up m h
  update_table-Safe down m h = pass_on-Safe m.screen down m h
  update_table-Safe enter m h = pass_on-Safe m.screen enter m h
  update_table-Safe (other s) m h = pass_on-Safe m.screen (other s) m h

  dispatch-Safe :
      (s : Screen) (k : Key) (m : Model I T) → IsWellFormed ui m → Safe ui (dispatch ui s k m)
  unfolding dispatch
  dispatch-Safe screen_login k m h = update_login-Safe ui k m h
  dispatch-Safe screen_menu k m h = update_menu-Safe k m h
  dispatch-Safe screen_nodes k m h = update_table-Safe k m h
  dispatch-Safe screen_snapshots k m h = update_table-Safe k m h
  dispatch-Safe screen_events k m h = update_table-Safe k m h
  dispatch-Safe screen_policies k m h = update_table-Safe k m h

  update-Safe : (msg : Msg) (m : Model I T) → IsWellFormed ui m → Safe ui (update ui msg m)
  unfolding update
  update-Safe (window_size w v) m h = moved m _ h refl refl h.cursor_in_range
  update-Safe (key_msg k) m h = dispatch-Safe m.screen k m h
  update-Safe (login_done t u r) m h = moved m _ h refl refl (omega arith)
  update-Safe (nodes_done rows) m h = moved m _ h refl refl h.cursor_in_range
  update-Safe (snaps_done rows) m h = moved m _ h refl refl h.cursor_in_range
  update-Safe (events_done rows) m h = moved m _ h refl refl h.cursor_in_range
  update-Safe (policies_done rows) m h = moved m _ h refl refl h.cursor_in_range
  update-Safe (err_msg e) m h = moved m _ h refl refl h.cursor_in_range

  initial_model-IsWellFormed : IsWellFormed ui (initial_model ui)
  unfolding initial_model
  initial_model-IsWellFormed = record {
    two_inputs = refl;
    focused_in_range = omega arith;
    cursor_in_range = omega arith;
  }

  answered :
      (a : Option (Model I T × Option (Cmd C)))
      → Safe ui a
      → (m : Model I T) × (cmd : Option (Cmd C)) × (a ≡ some (m, cmd)) × IsWellFormed ui m
  answered none bad = absurd bad
  answered (some (m, cmd)) h = (m, cmd, refl, h)

  run_from :
      (msgs : List Msg) (m : Model I T)
      → IsWellFormed ui m
      → (m' : Model I T) × (cmds : List (Option (Cmd C))) × (run ui msgs m ≡ some (m', cmds))
        × IsWellFormed ui m'
  unfolding run
  run_from [] m h = (m, [], refl, h)
  run_from (msg ∷ msgs) m h =
      let (m₁, cmd, e₁, h₁) = answered (update ui msg m) (update-Safe msg m h) in
      let (m₂, cmds, e₂, h₂) = run_from msgs m₁ h₁ in (m₂, cmd ∷ cmds, rw (e₁, e₂) refl, h₂)

  -- From the start the program never indexes out of range: whatever messages reach it, it answers
  -- each of them, and the form and the menu stay well formed.
  pub run_answers :
      (msgs : List Msg)
      → (m : Model I T) × (cmds : List (Option (Cmd C))) × (run ui msgs (initial_model ui)
          ≡ some (m, cmds))
        × IsWellFormed ui m
  run_answers msgs = run_from msgs (initial_model ui) initial_model-IsWellFormed
