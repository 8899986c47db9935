-- ===== src/Cli.antt =====
-- cmd/cli/main.go: the state machine of the terminal client. The widgets, a text input `I` and a
-- table `T`, are the parameter `Widgets`; the work that a command stands for is done outside, and its
-- answer comes back as a message. An index out of a slice's range panics: `none`.
pub mod Answers
pub mod Forms
pub mod Login
pub mod Fetch
pub mod Views
pub mod Rows
pub mod Footer
mod Examples
use btrfs_snapah_pow.Base.{
  ℕ, zero, suc, ◌+◌, ◌-◌, ◌%◌, String, Bool, true, false, Option, none, some, List, [], ◌∷◌, nat_eq,
  ltb, length, if◌then◌else◌,
}
use mathlib.Core.List
use mathlib.Core.Option

pub data Screen : Type 0 where
  screen_login screen_menu screen_nodes screen_snapshots screen_events screen_policies : Screen

-- The key types that the program tells apart; `text` is what another key types.
pub data Key : Type 0 where
  ctrl_c esc tab up down enter backspace : Key
  other : String → Key

abbrev pub Rows : Type 0
Rows = List (List String)

-- `C` is a command of a widget, which the program passes on. `new_input` takes the placeholder and
-- whether the text is hidden; `new_table` the columns, the rows and the height; `zero_table` is the
-- zero value of a table. Width and colours are left out.
pub record Widgets (I T C : Type 0) : Type 0 where
  pub new_input : String → Bool → I
  pub focus : I → I
  pub blur : I → I
  pub value : I → String
  pub update_input : Key → I → I × Option C
  pub zero_table : T
  pub new_table : List (String × ℕ) → Rows → ℕ → T
  pub update_table : Key → T → T × Option C
  pub blink : C

pub record Model (I T : Type 0) : Type 0 where
  pub screen : Screen
  pub token : String
  pub user : String
  pub role : String
  pub msg : String
  pub err : String
  pub loading : Bool
  pub cursor : ℕ
  pub inputs : List I
  pub focused : ℕ
  pub nodes_table : T
  pub snapshots_table : T
  pub events_table : T
  pub policies_table : T
  pub width : ℕ
  pub height : ℕ

pub data Msg : Type 0 where
  window_size : ℕ → ℕ → Msg
  key_msg : Key → Msg
  login_done : String → String → String → Msg
  err_msg : String → Msg
  nodes_done snaps_done events_done policies_done : Rows → Msg

-- What `Update` answers for the program to do: `fetch` is one of the four fetches, with its token.
pub data Page : Type 0 where
  nodes snapshots events policies : Page

pub data Cmd (C : Type 0) : Type 0 where
  quit : Cmd C
  do_login : String → String → Cmd C
  fetch : Page → String → Cmd C
  widget : C → Cmd C

-- the number of `menuItems`
abbrev pub menu_length : ℕ
menu_length = 5

abbrev pub nodes_columns : List (String × ℕ)
nodes_columns =
    ("ID", 10) ∷ ("Hostname", 20) ∷ ("Dirección", 22) ∷ ("Estado", 10) ∷ ("Último visto", 20) ∷ []

abbrev pub snapshots_columns : List (String × ℕ)
snapshots_columns = ("ID", 10) ∷ ("Path", 30) ∷ ("RO", 6) ∷ ("Estado", 10) ∷ ("Creado", 20) ∷ []

abbrev pub events_columns : List (String × ℕ)
events_columns = ("Tipo", 22) ∷ ("Mensaje", 40) ∷ ("Severity", 10) ∷ ("Hora", 20) ∷ []

abbrev pub policies_columns : List (String × ℕ)
policies_columns =
    ("Nombre", 18) ∷ ("Schedule", 14) ∷ ("Path", 24) ∷ ("Retención", 12) ∷ ("Activa", 8) ∷ []

-- `xs[n]`
abbrev pub input_at : {I : Type 0} → ℕ → List I → Option I
input_at n [] = none
input_at zero (x ∷ xs) = some x
input_at (suc n) (x ∷ xs) = input_at n xs

-- `xs[n] = f(xs[n])`
abbrev pub update_at : {I : Type 0} → ℕ → (I → I) → List I → Option (List I)
update_at n f [] = none
update_at zero f (x ∷ xs) = some (f x ∷ xs)
update_at (suc n) f (x ∷ xs) = Option.map (◌∷◌ x) (update_at n f xs)

-- what follows a panic does not happen
infixl 5 ◌>>=◌
abbrev ◌>>=◌ : {A B : Type 0} → Option A → (A → Option B) → Option B
none >>= f = none
some a >>= f = f a

module _ {I T C : Type 0} (ui : Widgets I T C) where
  abbrev Answer : Type 0
  Answer = Option (Model I T × Option (Cmd C))

  abbrev still : Model I T → Answer
  still m = some (m, none)

  unfoldable pub initial_model : Model I T
  initial_model = record {
    screen = screen_login;
    token = "";
    user = "";
    role = "";
    msg = "";
    err = "";
    loading = false;
    cursor = 0;
    inputs = ui.focus (ui.new_input "admin" false) ∷ ui.new_input "contraseña" true ∷ [];
    focused = 0;
    nodes_table = ui.zero_table;
    snapshots_table = ui.zero_table;
    events_table = ui.zero_table;
    policies_table = ui.zero_table;
    width = 0;
    height = 0;
  }

  -- the loop that focuses one input and blurs the others; `i` is the index of the first
  abbrev refocus : ℕ → ℕ → List I → List I
  refocus i focused [] = []
  refocus i focused (x ∷ xs) =
      (if nat_eq i focused then ui.focus x else ui.blur x) ∷ refocus (i + 1) focused xs

  abbrev next_input : Model I T → Model I T
  next_input m =
      let f = (m.focused + 1) % length m.inputs in
      record m { focused = f; inputs = refocus 0 f m.inputs }

  -- Enter on the first input
  to_password : Model I T → Answer
  to_password m = do
    blurred ← update_at 0 ui.blur m.inputs
    inputs ← update_at 1 ui.focus blurred
    still (record m { focused = 1; inputs = inputs })

  submit : Model I T → Answer
  submit m = do
    user ← input_at 0 m.inputs
    pass ← input_at 1 m.inputs
    some (record m { loading = true; err = "" }, some (do_login (ui.value user) (ui.value pass)))

  type_key : Key → Model I T → Answer
  type_key k m = do
    input ← input_at m.focused m.inputs
    inputs ← update_at m.focused (λ x. (ui.update_input k x).0) m.inputs
    some (record m { inputs = inputs }, Option.map widget (ui.update_input k input).1)

  unfoldable pub update_login : Key → Model I T → Answer
  unfolding to_password submit type_key
  update_login ctrl_c m = some (m, some quit)
  update_login esc m = some (m, some quit)
  update_login tab m = still (next_input m)
  update_login down m = still (next_input m)
  update_login enter m =
      let first = to_password m in let last = submit m in if nat_eq m.focused 0 then first else last
  update_login k m = type_key k m

  abbrev fetching : Page → Model I T → Answer
  fetching page m = some (record m { loading = true }, some (fetch page m.token))

  -- the `switch` on the cursor
  choose : ℕ → Model I T → Answer
  choose n m =
      if nat_eq n 0
      then fetching nodes m
      else if nat_eq n 1
      then fetching snapshots m
      else if nat_eq n 2
      then fetching events m
      else if nat_eq n 3
      then fetching policies m
      else if nat_eq n 4
      then some (m, some quit)
      else still m

  unfoldable pub update_menu : Key → Model I T → Answer
  unfolding choose
  update_menu ctrl_c m = some (m, some quit)
  update_menu esc m = some (m, some quit)
  update_menu up m = still (if ltb 0 m.cursor then record m { cursor = m.cursor - 1 } else m)
  update_menu down m =
      still (if ltb m.cursor (menu_length - 1) then record m { cursor = m.cursor + 1 } else m)
  update_menu enter m = choose m.cursor m
  update_menu k m = still m

  -- a key for the table that is shown
  pass_on : Screen → Key → Model I T → Answer
  pass_on screen_nodes k m =
      let (t, cmd) = ui.update_table k m.nodes_table in
      some (record m { nodes_table = t }, Option.map widget cmd)
  pass_on screen_snapshots k m =
      let (t, cmd) = ui.update_table k m.snapshots_table in
      some (record m { snapshots_table = t }, Option.map widget cmd)
  pass_on screen_events k m =
      let (t, cmd) = ui.update_table k m.events_table in
      some (record m { events_table = t }, Option.map widget cmd)
  pass_on screen_policies k m =
      let (t, cmd) = ui.update_table k m.policies_table in
      some (record m { policies_table = t }, Option.map widget cmd)
  pass_on _ k m = still m

  unfoldable pub update_table : Key → Model I T → Answer
  unfolding pass_on
  update_table esc m = still (record m { screen = screen_menu; cursor = 0 })
  update_table backspace m = still (record m { screen = screen_menu; cursor = 0 })
  update_table ctrl_c m = some (m, some quit)
  update_table k m = pass_on m.screen k m

  -- the inner `switch` of `Update`
  dispatch : Screen → Key → Model I T → Answer
  dispatch screen_login k m = update_login k m
  dispatch screen_menu k m = update_menu k m
  dispatch _ k m = update_table k m

  unfoldable pub update : Msg → Model I T → Answer
  unfolding dispatch
  update (window_size width height) m = still (record m { width = width; height = height })
  update (key_msg k) m = dispatch m.screen k m
  update (login_done token user role) m = still (record m {
    loading = false;
    token = token;
    user = user;
    role = role;
    screen = screen_menu;
    cursor = 0;
    err = "";
  })
  update (nodes_done rows) m = still (record m {
    loading = false;
    nodes_table = ui.new_table nodes_columns rows 10;
    screen = screen_nodes;
  })
  update (snaps_done rows) m = still (record m {
    loading = false;
    snapshots_table = ui.new_table snapshots_columns rows 10;
    screen = screen_snapshots;
  })
  update (events_done rows) m = still (record m {
    loading = false;
    events_table = ui.new_table events_columns rows 10;
    screen = screen_events;
  })
  update (policies_done rows) m = still (record m {
    loading = false;
    policies_table = ui.new_table policies_columns rows 10;
    screen = screen_policies;
  })
  update (err_msg e) m = still (record m { loading = false; err = e })

  -- A run of the program over the messages that reach it, and the commands that it answers.
  unfoldable pub run : List Msg → Model I T → Option (Model I T × List (Option (Cmd C)))
  run [] m = some (m, [])
  run (msg ∷ msgs) m = do
    (m', cmd) ← update msg m
    (m'', cmds) ← run msgs m'
    some (m'', cmd ∷ cmds)
