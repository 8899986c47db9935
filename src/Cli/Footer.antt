-- ===== src/Cli/Footer.antt =====
-- What the views of cmd/cli/main.go say of an error.
use btrfs_snapah_pow.Base.{
  ◌≡◌, ◌≢◌, refl, ◌∙◌, ◌++◌, false, Option, none, some, List, [], ◌∷◌, eq_iff, arith,
}
use mathlib.Core.Option
use mathlib.Core.Path.{subst}
use btrfs_snapah_pow.Cli.{
  Widgets, Model, Msg, window_size, key_msg, login_done, err_msg, nodes_done, snaps_done,
  events_done, policies_done, Cmd, ◌>>=◌, to_password, submit, type_key, update_login, choose,
  update_menu, pass_on, update_table, dispatch, update, initial_model, run,
}
use btrfs_snapah_pow.Cli.Views.{Styles, header, footer, body, view}

module _ {I T C : Type 0} (ui : Widgets I T C) where
  -- an answer whose model says as little of success as the one before
  abbrev Quiet : Model I T → Option (Model I T × Option (Cmd C)) → Type 0
  Quiet m none = Unit
  Quiet m (some (m', cmd)) = m'.msg ≡ m.msg

  bind-Quiet :
      {A : Type 0} (m : Model I T) (o : Option A) (f : A → Option (Model I T × Option (Cmd C)))
      → ((a : A) → Quiet m (f a))
      → Quiet m (o >>= f)
  bind-Quiet m none f h = tt
  bind-Quiet m (some a) f h = h a

  update-Quiet : (msg : Msg) (m : Model I T) → Quiet m (update ui msg m)
  unfolding update dispatch update_login update_menu update_table to_password submit type_key choose
      pass_on
  update-Quiet (window_size width height) m = refl
  update-Quiet (login_done token user role) m = refl
  update-Quiet (err_msg e) m = refl
  update-Quiet (nodes_done rows) m = refl
  update-Quiet (snaps_done rows) m = refl
  update-Quiet (events_done rows) m = refl
  update-Quiet (policies_done rows) m = refl
  update-Quiet (key_msg k) m = ground arith

  abbrev Ends : Model I T → Option (Model I T × List (Option (Cmd C))) → Type 0
  Ends m none = Unit
  Ends m (some (m', cmds)) = m'.msg ≡ m.msg

  both :
      (m m₁ : Model I T) (cmd : Option (Cmd C)) (o : Option (Model I T × List (Option (Cmd C))))
      → m₁.msg ≡ m.msg
      → Ends m₁ o
      → Ends m (o >>= (λ (m₂, cmds). some (m₂, cmd ∷ cmds)))
  both m m₁ cmd none t h = tt
  both m m₁ cmd (some (m₂, cmds)) t h = h ∙ t

  after :
      (msgs : List Msg) (m : Model I T) (a : Option (Model I T × Option (Cmd C)))
      → Quiet m a
      → ((m₁ : Model I T) → Ends m₁ (run ui msgs m₁))
      → Ends m (a >>= (λ (m₁, cmd). run ui msgs m₁ >>= (λ (m₂, cmds). some (m₂, cmd ∷ cmds))))
  after msgs m none q rest = tt
  after msgs m (some (m₁, cmd)) q rest = both m m₁ cmd (run ui msgs m₁) q (rest m₁)

  run-Ends : (msgs : List Msg) (m : Model I T) → Ends m (run ui msgs m)
  unfolding run
  run-Ends [] m = refl
  run-Ends (msg ∷ msgs) m = after msgs m (update ui msg m) (update-Quiet msg m) (run-Ends msgs)

  -- Whenever the program is not loading, the view ends with the error, if there is one: no success
  -- message ever stands in its place.
  pub error_shown :
      (style : Styles I T) (msgs : List Msg) (m : Model I T) (cmds : List (Option (Cmd C)))
      → run ui msgs (initial_model ui) ≡ some (m, cmds)
      → m.loading ≡ false
      → m.err ≢ ""
      → view style m
        ≡ Option.map
            (λ b. header style ++ (b ++ (("\n" ++ style.error ("  ✗ " ++ m.err)) ++ "\n")))
            (body style m.screen m)
  unfolding view footer initial_model
  error_shown style msgs m cmds ran idle failed =
      let quiet : m.msg ≡ "" =
        subst (Ends (initial_model ui)) ran (run-Ends msgs (initial_model ui)) in
      rw (idle, quiet) (ground (arith, eq_iff m.err ""))
