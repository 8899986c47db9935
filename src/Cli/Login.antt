-- ===== src/Cli/Login.antt =====
-- What takes the terminal client of cmd/cli/main.go beyond its login form.
use btrfs_snapah_pow.Base.{
  ◌≡◌, refl, ◌∙◌, Bool, true, false, Option, none, some, List, [], ◌∷◌, nat_eq, if◌then◌else◌, All,
}
use mathlib.Core.Option
use mathlib.Core.Path.{subst}
use btrfs_snapah_pow.Cli.{
  Screen, screen_login, screen_menu, screen_nodes, screen_snapshots, screen_events, screen_policies,
  Key, ctrl_c, esc, tab, up, down, enter, backspace, other, Widgets, Model, Msg, window_size,
  key_msg, login_done, err_msg, nodes_done, snaps_done, events_done, policies_done, Cmd, do_login,
  fetch, widget, input_at, update_at, to_password, submit, type_key, dispatch, ◌>>=◌, update_login,
  update, initial_model, run,
}

module _ {I T C : Type 0} (ui : Widgets I T C) where
  -- a command that asks for no data
  abbrev pub NoFetch : Option (Cmd C) → Type 0
  NoFetch (some (fetch page token)) = ⊥
  NoFetch _ = Unit

  -- a message that brings no data and no login
  abbrev pub NoAnswer : Msg → Type 0
  NoAnswer (key_msg k) = Unit
  NoAnswer (err_msg e) = Unit
  NoAnswer (window_size width height) = Unit
  NoAnswer _ = ⊥

  abbrev At : Model I T → Option (Model I T × Option (Cmd C)) → Type 0
  At m none = Unit
  At m (some (m', cmd)) = (m'.screen ≡ m.screen) × (m'.token ≡ m.token) × NoFetch cmd

  widget-NoFetch : (c : Option C) → NoFetch (Option.map widget c)
  widget-NoFetch none = tt
  widget-NoFetch (some c) = tt

  bind-At :
      {A : Type 0} (m : Model I T) (o : Option A) (f : A → Option (Model I T × Option (Cmd C)))
      → ((a : A) → At m (f a))
      → At m (o >>= f)
  bind-At m none f h = tt
  bind-At m (some a) f h = h a

  to_password-At : (m : Model I T) → At m (to_password ui m)
  unfolding to_password
  to_password-At m =
      let done : List I → Option (Model I T × Option (Cmd C)) =
        λ inputs. some (record m { focused = 1; inputs = inputs }, none) in
      bind-At m (update_at 0 ui.blur m.inputs) (λ b. update_at 1 ui.focus b >>= done)
        (λ b. bind-At m (update_at 1 ui.focus b) done (λ i. (refl, refl, tt)))

  submit-At : (m : Model I T) → At m (submit ui m)
  unfolding submit
  submit-At m =
      let done : I → I → Option (Model I T × Option (Cmd C)) = λ u p.
        some (record m { loading = true; err = "" }, some (do_login (ui.value u) (ui.value p))) in
      bind-At m (input_at 0 m.inputs) (λ u. input_at 1 m.inputs >>= done u)
        (λ u. bind-At m (input_at 1 m.inputs) (done u) (λ p. (refl, refl, tt)))

  type_key-At : (k : Key) (m : Model I T) → At m (type_key ui k m)
  unfolding type_key
  type_key-At k m =
      let typed : I → Option (List I) =
        λ input. update_at m.focused (λ x. (ui.update_input k x).0) m.inputs in
      let done : I → List I → Option (Model I T × Option (Cmd C)) = λ input inputs.
        some (record m { inputs = inputs }, Option.map widget (ui.update_input k input).1) in
      bind-At m (input_at m.focused m.inputs) (λ x. typed x >>= done x)
        (λ x.
          bind-At m (typed x) (done x) (λ i. (refl, refl, widget-NoFetch (ui.update_input k x).1)))

  either-At :
      (b : Bool) (m : Model I T) (x y : Option (Model I T × Option (Cmd C)))
      → At m x
      → At m y
      → At m (if b then x else y)
  either-At true m x y hx hy = hx
  either-At false m x y hx hy = hy

  update_login-At : (k : Key) (m : Model I T) → At m (update_login ui k m)
  unfolding update_login
  update_login-At ctrl_c m = (refl, refl, tt)
  update_login-At esc m = (refl, refl, tt)
  update_login-At tab m = (refl, refl, tt)
  update_login-At down m = (refl, refl, tt)
  update_login-At enter m =
      either-At (nat_eq m.focused 0) m (to_password ui m) (submit ui m) (to_password-At m)
        (submit-At m)
  update_login-At up m = type_key-At up m
  update_login-At backspace m = type_key-At backspace m
  update_login-At (other s) m = type_key-At (other s) m

  dispatch-At : (s : Screen) (k : Key) (m : Model I T) → s ≡ screen_login → At m (dispatch ui s k m)
  unfolding dispatch
  dispatch-At screen_login k m h = update_login-At k m
  dispatch-At screen_menu k m h = absurd cc
  dispatch-At screen_nodes k m h = absurd cc
  dispatch-At screen_snapshots k m h = absurd cc
  dispatch-At screen_events k m h = absurd cc
  dispatch-At screen_policies k m h = absurd cc

  update-At :
      (msg : Msg) (m : Model I T) → NoAnswer msg → m.screen ≡ screen_login → At m (update ui msg m)
  unfolding update
  update-At (key_msg k) m n h = dispatch-At m.screen k m h
  update-At (err_msg e) m n h = (refl, refl, tt)
  update-At (window_size width height) m n h = (refl, refl, tt)
  update-At (login_done t u r) m n h = absurd n
  update-At (nodes_done rows) m n h = absurd n
  update-At (snaps_done rows) m n h = absurd n
  update-At (events_done rows) m n h = absurd n
  update-At (policies_done rows) m n h = absurd n

  abbrev pub Stayed : Model I T → Option (Model I T × List (Option (Cmd C))) → Type 0
  Stayed m none = Unit
  Stayed m (some (m', cmds)) = (m'.screen ≡ screen_login) × (m'.token ≡ m.token) × All NoFetch cmds

  both :
      (m m₁ : Model I T) (cmd : Option (Cmd C)) (o : Option (Model I T × List (Option (Cmd C))))
      → m₁.token ≡ m.token
      → NoFetch cmd
      → Stayed m₁ o
      → Stayed m (o >>= (λ (m₂, cmds). some (m₂, cmd ∷ cmds)))
  both m m₁ cmd none t c h = tt
  both m m₁ cmd (some (m₂, cmds)) t c h = (h.0, h.1 ∙ t, (c, h.2))

  after :
      (msgs : List Msg) (m : Model I T) (a : Option (Model I T × Option (Cmd C)))
      → At m a
      → m.screen ≡ screen_login
      → ((m₁ : Model I T) → m₁.screen ≡ screen_login → Stayed m₁ (run ui msgs m₁))
      → Stayed m (a >>= (λ (m₁, cmd). run ui msgs m₁ >>= (λ (m₂, cmds). some (m₂, cmd ∷ cmds))))
  after msgs m none at h rest = tt
  after msgs m (some (m₁, cmd)) at h rest =
      both m m₁ cmd (run ui msgs m₁) at.1 at.2 (rest m₁ (at.0 ∙ h))

  run-Stayed :
      (msgs : List Msg) (m : Model I T)
      → All NoAnswer msgs
      → m.screen ≡ screen_login
      → Stayed m (run ui msgs m)
  unfolding run
  run-Stayed [] m n h = (h, refl, tt)
  run-Stayed (msg ∷ msgs) m n h =
      after msgs m (update ui msg m) (update-At msg m n.0 h) h (λ m₁ e. run-Stayed msgs m₁ n.1 e)

  -- Key presses, errors and sizes alone never take the client beyond the login form: however many
  -- there are, it stays on the form without a token, and no command that it answers fetches data.
  pub run_locked :
      (msgs : List Msg) (m : Model I T) (cmds : List (Option (Cmd C)))
      → All NoAnswer msgs
      → run ui msgs (initial_model ui) ≡ some (m, cmds)
      → (m.screen ≡ screen_login) × (m.token ≡ "") × All NoFetch cmds
  unfolding initial_model
  run_locked msgs m cmds n h =
      subst (Stayed (initial_model ui)) h (run-Stayed msgs (initial_model ui) n refl)
