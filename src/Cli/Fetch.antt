-- ===== src/Cli/Fetch.antt =====
-- The commands of cmd/cli/main.go that ask the server, and the classic mode. The HTTP client is the
-- parameter `Web`: `B` is a body, `W` what is on the other side.
use Prim.Native.Char.{code}
use btrfs_snapah_pow.Base.{
  ℕ, zero, suc, ◌+◌, ◌-◌, String, ◌++◌, ◌==◌, Bool, not, List, [], ◌∷◌, GoMap, map, Result, ok, err,
  nat_eq, ltb, leb, if◌then◌else◌, is_empty,
}
use btrfs_snapah_pow.Http.{get}
use btrfs_snapah_pow.Alerts.{Env}
use btrfs_snapah_pow.Cli.{
  Msg, login_done, err_msg, nodes_done, snaps_done, events_done, policies_done, Rows, Page, nodes,
  snapshots, events, policies,
}

-- the bytes of a character in UTF-8
abbrev size_at : ℕ → ℕ
size_at n = if ltb n 128 then 1 else if ltb n 2048 then 2 else if ltb n 65536 then 3 else 4

-- `len(s)`
unfoldable pub byte_len : String → ℕ
byte_len String.[] = 0
byte_len (String.◌∷◌ c s) = size_at (code c) + byte_len s

-- the first bytes of a character that is cut, each as it is displayed
abbrev broken : ℕ → String
broken zero = ""
broken (suc n) = "�" ++ broken n

-- `s[:n]`
unfoldable pub byte_prefix : ℕ → String → String
byte_prefix n String.[] = ""
byte_prefix n (String.◌∷◌ c s) =
    let rest = byte_prefix (n - size_at (code c)) s in
    if leb (size_at (code c)) n then String.◌∷◌ c rest else broken n

-- what the answers' structs hold of a row; a time is a number
pub record NodeRow : Type 0 where
  pub id : String
  pub hostname : String
  pub address : String
  pub status : String
  pub last_seen : ℕ

pub record SnapshotRow : Type 0 where
  pub id : String
  pub snapshot_path : String
  pub is_read_only : Bool
  pub status : String
  pub created_at : ℕ

pub record EventRow : Type 0 where
  pub event_type : String
  pub message : String
  pub severity : String
  pub created_at : ℕ

pub record PolicyRow : Type 0 where
  pub name : String
  pub schedule : String
  pub subvolume_path : String
  pub retention_daily : ℕ
  pub retention_weekly : ℕ
  pub enabled : Bool

pub record Response (B : Type 0) : Type 0 where
  pub status_code : ℕ
  pub body : B

-- `post` takes the address, the content type and the body; `send_get` the address and the header.
-- The decoders give what they leave in their variable, also where they fail. `format_time` is that of
-- "02/01 15:04:05", `format_int` that of "%d".
pub record Web (B W : Type 0) : Type 0 where
  pub post : String → String → B → W → W × Result (Response B)
  pub send_get : String → GoMap String → W → W × Result (Response B)
  pub read_all : B → Result B
  pub marshal : GoMap String → B
  pub decode_map : B → GoMap String
  pub decode_nodes : B → List NodeRow
  pub decode_snapshots : B → List SnapshotRow
  pub decode_events : B → List EventRow
  pub decode_policies : B → List PolicyRow
  pub format_time : ℕ → String
  pub format_int : ℕ → String

abbrev pub base_url : Env → String
base_url env =
    if not (is_empty (env "SNAPAH_URL")) then env "SNAPAH_URL" else "http://localhost:8082"

-- an id of more than eight bytes is cut
abbrev pub short_id : String → String
short_id id = if ltb 8 (byte_len id) then byte_prefix 8 id ++ "..." else id

abbrev pub short_message : String → String
short_message msg = if ltb 38 (byte_len msg) then byte_prefix 38 msg ++ "…" else msg

abbrev pub or_row : List String → Rows → Rows
or_row row [] = row ∷ []
or_row row (r ∷ rows) = r ∷ rows

module _ {B W : Type 0} (env : Env) (web : Web B W) where
  logged_in : Result (Response B) → Msg
  logged_in (err e) = err_msg ("no se pudo conectar: " ++ e)
  logged_in (ok resp) =
      let data_of = web.decode_map resp.body in
      if not (nat_eq resp.status_code 200)
      then err_msg (get "error" data_of)
      else login_done (get "token" data_of) (get "username" data_of) (get "role" data_of)

  unfoldable pub do_login : String → String → W → W × Msg
  unfolding logged_in
  do_login user pass w =
      let (w', resp) =
        web.post (base_url env ++ "/api/auth/login") "application/json"
          (web.marshal (("username", user) ∷ ("password", pass) ∷ [])) w in
      (w', logged_in resp)

  -- The status is not looked at.
  unfoldable pub body_of : Result (Response B) → Result B
  body_of (err e) = err e
  body_of (ok resp) = web.read_all resp.body

  unfoldable pub api_get : String → String → W → W × Result B
  unfolding body_of
  api_get token path w =
      let (w', resp) =
        web.send_get (base_url env ++ path) (("Authorization", "Bearer " ++ token) ∷ []) w in
      (w', body_of resp)

  abbrev pub node_cells : NodeRow → List String
  node_cells n =
      short_id n.id ∷ n.hostname ∷ n.address ∷ n.status ∷ web.format_time n.last_seen ∷ []

  abbrev pub snapshot_cells : SnapshotRow → List String
  snapshot_cells s =
      short_id s.id
      ∷ s.snapshot_path
      ∷ (if s.is_read_only then "RO" else "RW")
      ∷ s.status
      ∷ web.format_time s.created_at
      ∷ []

  abbrev pub event_cells : EventRow → List String
  event_cells e =
      e.event_type ∷ short_message e.message ∷ e.severity ∷ web.format_time e.created_at ∷ []

  abbrev pub policy_cells : PolicyRow → List String
  policy_cells p =
      p.name
      ∷ p.schedule
      ∷ p.subvolume_path
      ∷ (web.format_int p.retention_daily ++ ("d/" ++ (web.format_int p.retention_weekly ++ "w")))
      ∷ (if p.enabled then "sí" else "no")
      ∷ []

  unfoldable pub answered : Result B → (B → Msg) → Msg
  answered (err e) f = err_msg e
  answered (ok body) f = f body

  unfoldable pub node_rows : B → Rows
  node_rows body =
      or_row ("—" ∷ "Sin nodos" ∷ "" ∷ "" ∷ "" ∷ []) (map node_cells (web.decode_nodes body))

  unfoldable pub snapshot_rows : B → Rows
  snapshot_rows body =
      or_row ("—" ∷ "Sin snapshots" ∷ "" ∷ "" ∷ "" ∷ [])
        (map snapshot_cells (web.decode_snapshots body))

  unfoldable pub event_rows : B → Rows
  event_rows body =
      or_row ("—" ∷ "Sin eventos" ∷ "" ∷ "" ∷ []) (map event_cells (web.decode_events body))

  unfoldable pub policy_rows : B → Rows
  policy_rows body =
      or_row ("—" ∷ "Sin políticas" ∷ "" ∷ "" ∷ "" ∷ [])
        (map policy_cells (web.decode_policies body))

  unfoldable pub fetch_nodes : String → W → W × Msg
  unfolding answered
  fetch_nodes token w =
      let (w', body) = api_get token "/api/nodes" w in
      (w', answered body (λ b. nodes_done (node_rows b)))

  unfoldable pub fetch_snapshots : String → W → W × Msg
  unfolding answered
  fetch_snapshots token w =
      let (w', body) = api_get token "/api/snapshots" w in
      (w', answered body (λ b. snaps_done (snapshot_rows b)))

  unfoldable pub fetch_events : String → W → W × Msg
  unfolding answered
  fetch_events token w =
      let (w', body) = api_get token "/api/events" w in
      (w', answered body (λ b. events_done (event_rows b)))

  unfoldable pub fetch_policies : String → W → W × Msg
  unfolding answered
  fetch_policies token w =
      let (w', body) = api_get token "/api/policies" w in
      (w', answered body (λ b. policies_done (policy_rows b)))

  -- the command `fetch` of a page
  unfoldable pub fetched : Page → String → W → W × Msg
  fetched nodes token w = fetch_nodes token w
  fetched snapshots token w = fetch_snapshots token w
  fetched events token w = fetch_events token w
  fetched policies token w = fetch_policies token w

  status_line : Result (Response B) → String × ℕ
  status_line (err e) = ("error: " ++ (e ++ "\n"), 1)
  status_line (ok resp) =
      let data_of = web.decode_map resp.body in
      (
        "status: " ++ (get "status" data_of ++ ("  version: " ++ (get "version" data_of ++ "\n"))),
        0,
      )

  -- `runCLI` of the first argument: what it prints, and the exit code.
  unfoldable pub run_cli : String → W → W × (String × ℕ)
  unfolding status_line
  run_cli arg w =
      let (w', resp) = web.send_get (base_url env ++ "/health") [] w in
      if arg == "status"
      then (w', status_line resp)
      else if arg == "version"
      then (w, ("snapah pow CLI — v0.6.0\n", 0))
      else (w, ("Uso: snapah [status|version]\nSin argumentos: abre la TUI interactiva\n", 0))
