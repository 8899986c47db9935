-- ===== src/Cli/Examples.antt =====
-- Runs of the terminal client with inputs that are texts and tables that are rows.
use btrfs_snapah_pow.Base.{
  ◌≡◌, refl, ok, ℕ, nat_eq, if◌then◌else◌, eq_iff, arith, String, ◌++◌, Option, none, some, List,
  [], ◌∷◌, All,
}
use btrfs_snapah_pow.Cli.{
  Screen, screen_login, screen_nodes, Key, tab, down, enter, other, Rows, Widgets, Model, Msg,
  key_msg, login_done, err_msg, nodes_done, Cmd, do_login, fetch, nodes, update_login, update_menu,
  update_table, update, initial_model, run,
}
use btrfs_snapah_pow.Alerts.{Env}
use mathlib.Core.Option
use btrfs_snapah_pow.Cli.Views.{Styles, header, body, view}
use btrfs_snapah_pow.Cli.Footer.{error_shown}
use btrfs_snapah_pow.Cli.Fetch.{
  NodeRow, Web, byte_len, byte_prefix, api_get, body_of, answered, node_rows, fetch_nodes, fetched,
}
use btrfs_snapah_pow.Cli.Rows.{Fits, fetched-Fits, answering, fetched-answering}
use btrfs_snapah_pow.Cli.Forms.{IsWellFormed}
use btrfs_snapah_pow.Cli.Answers.{run_answers}
use btrfs_snapah_pow.Cli.Login.{NoFetch, run_locked}

abbrev typed : Key → String → String
typed (other s) value = value ++ s
typed _ value = value

abbrev toy_ui : Widgets String Rows (Unit {0})
toy_ui = record {
  new_input = λ placeholder hidden. "";
  focus = λ x. x;
  blur = λ x. x;
  value = λ x. x;
  update_input = λ k x. (typed k x, none);
  zero_table = [];
  new_table = λ columns rows height. rows;
  update_table = λ k t. (t, none);
  blink = tt;
}

abbrev typing : List Msg
typing =
    key_msg (other "bob")
    ∷ key_msg tab
    ∷ key_msg (other "pw")
    ∷ key_msg enter
    ∷ err_msg "credenciales"
    ∷ []

abbrev filled : Model String Rows
filled = record (initial_model toy_ui) {
  inputs = "bob" ∷ "pw" ∷ [];
  focused = 1;
  err = "credenciales";
}

abbrev sent : List (Option (Cmd (Unit {0})))
sent = none ∷ none ∷ none ∷ some (do_login "bob" "pw") ∷ none ∷ []

typing_run : run toy_ui typing (initial_model toy_ui) ≡ some (filled, sent)
unfolding run update update_login initial_model
typing_run = refl

run_locked_example :
    (filled.screen ≡ screen_login) × (filled.token ≡ "") × All (NoFetch toy_ui) sent
unfolding initial_model
run_locked_example =
    run_locked toy_ui typing filled sent (tt, (tt, (tt, (tt, (tt, tt))))) typing_run

-- after a login, Enter on the first line of the menu asks for the nodes
abbrev session : List Msg
session =
    login_done "t0k" "bob" "admin"
    ∷ key_msg enter
    ∷ nodes_done (("n1" ∷ "host" ∷ []) ∷ [])
    ∷ key_msg down
    ∷ []

abbrev screen_and_commands :
    Option (Model String Rows × List (Option (Cmd (Unit {0}))))
    → Option (Screen × List (Option (Cmd (Unit {0}))))
screen_and_commands none = none
screen_and_commands (some (m, cmds)) = some (m.screen, cmds)

session_run :
    screen_and_commands (run toy_ui session (initial_model toy_ui))
    ≡ some (screen_nodes, none ∷ some (fetch nodes "t0k") ∷ none ∷ none ∷ [])
unfolding run update update_menu update_table initial_model
session_run = refl

run_answers_example :
    (m : Model String Rows) × (cmds : List (Option (Cmd (Unit {0})))) × (run toy_ui session
        (initial_model toy_ui)
      ≡ some (m, cmds))
    × IsWellFormed toy_ui m
run_answers_example = run_answers toy_ui session

-- styles that mark what they are given
abbrev toy_style : Styles String Rows
toy_style = record {
  title = λ s. s;
  bar = λ s. s;
  selected = λ s. s;
  muted = λ s. s;
  success = λ s. s;
  error = λ s. "! " ++ s;
  box = λ s. s;
  view_input = λ s. s;
  view_table = λ rows. "";
}

error_shown_example :
    view toy_style filled
    ≡ Option.map
        (λ b.
          header toy_style ++ (b ++ (("\n" ++ toy_style.error ("  ✗ " ++ "credenciales")) ++ "\n")))
        (body toy_style screen_login filled)
unfolding initial_model
error_shown_example =
    error_shown toy_ui toy_style typing filled sent typing_run refl
      (ground (arith, eq_iff "credenciales" ""))

-- A server that answers every request with the same body. The body is the number of its nodes.
abbrev node_row : NodeRow
node_row = record {
  id = "0123456789";
  hostname = "nas";
  address = "10.0.0.2";
  status = "online";
  last_seen = 0;
}

abbrev nodes_of : ℕ → List NodeRow
nodes_of n = if nat_eq n 0 then [] else node_row ∷ []

abbrev toy_web : Web ℕ ℕ
toy_web = record {
  post = λ url kind body w. (w, ok (record { status_code = 200; body = body }));
  send_get = λ url head w. (w, ok (record { status_code = 200; body = w }));
  read_all = λ b. ok b;
  marshal = λ m. 0;
  decode_map = λ b. [];
  decode_nodes = nodes_of;
  decode_snapshots = λ b. [];
  decode_events = λ b. [];
  decode_policies = λ b. [];
  format_time = λ t. "01/01 00:00:00";
  format_int = λ n. "1";
}

abbrev no_env : Env
no_env name = ""

-- a long id is cut to eight bytes
cut_id :
    (fetched no_env toy_web nodes "t" 1).1
    ≡ nodes_done (("01234567..." ∷ "nas" ∷ "10.0.0.2" ∷ "online" ∷ "01/01 00:00:00" ∷ []) ∷ [])
unfolding fetched fetch_nodes api_get body_of answered node_rows byte_len byte_prefix
cut_id = refl

fetched-Fits_example : Fits nodes (fetched no_env toy_web nodes "t" 1).1
fetched-Fits_example = fetched-Fits no_env toy_web nodes "t" 1

fetched-answering_example :
    fetched no_env (answering no_env toy_web 401) nodes "t" 0 ≡ fetched no_env toy_web nodes "t" 0
fetched-answering_example = fetched-answering no_env toy_web 401 nodes "t" 0
