-- ===== src/Agent.antt =====
-- cmd/agent/main.go: the agent of a node. The calls of gRPC are the parameter `Client`: `N` is a
-- connection, and `W` what is on its other side. Logging is left out, but for whether a heartbeat got
-- an answer.
pub mod Settings
pub mod Heartbeats
pub mod Security
mod Examples
use btrfs_snapah_pow.Base.{
  ℕ, String, ◌++◌, Bool, true, false, Option, none, some, List, [], ◌∷◌, Result, ok, err, ◌>>=◌,
  is_empty, if◌then◌else◌,
}
use btrfs_snapah_pow.Base.Int.{is_positive, mul_int, second}
use btrfs_snapah_pow.Alerts.{Env}
use btrfs_snapah_pow.Config.{Config}
use btrfs_snapah_pow.Tls
use btrfs_snapah_pow.Tls.{Files, client_tls, certs_exist}
use btrfs_snapah_pow.Server.Types.{PbNode, PbSnapshot}
use btrfs_snapah_pow.Server.Admin.{or_default}

-- The transport credentials: `insecure.NewCredentials()`, or those of a TLS configuration.
pub data Transport (T : Type 0) : Type 0 where
  insecure : Transport T
  secure : T → Transport T

-- `new_client`, `RegisterNode` with the hostname, the address and the token, and `ListSnapshots`.
-- Their timeouts are errors.
pub record Client (N T W : Type 0) : Type 0 where
  pub new_client : String → Transport T → Result N
  pub register_node : N → String → String → String → W → W × Result PbNode
  pub list_snapshots : N → String → W → W × Result (List PbSnapshot)

-- the configuration, `nil` where it could not be loaded
abbrev pub loaded : Result Config → Option Config
loaded (ok cfg) = some cfg
loaded (err e) = none

abbrev pub config_path : Env → String
config_path env = or_default (env "SNAPAH_CONFIG") "config.yaml"

-- `value`, if it is empty the configuration's, if that is empty the fallback
configured : String → (Config → String) → Option Config → String → String
configured value f none fallback = or_default value fallback
configured value f (some cfg) fallback = or_default (or_default value (f cfg)) fallback

unfoldable pub server_addr : Env → Option Config → String
unfolding configured
server_addr env cfg =
    configured (env "SNAPAH_SERVER") (λ c. c.agent.server_address) cfg "localhost:9090"

unfoldable pub token : Env → Option Config → String
unfolding configured
token env cfg = configured (env "SNAPAH_TOKEN") (λ c. c.agent.token) cfg "demo-token"

abbrev secured : {T : Type 0} → Result T → Transport T
secured (ok t) = secure t
secured (err e) = insecure

-- The credentials that the agent dials with; a TLS configuration that fails is left out.
unfoldable pub transport :
    {F K B P : Type 0} → Files F K B P → Option Config → F → Transport (Tls.Config K P)
transport files none fs = insecure
transport files (some cfg) fs =
    let a = cfg.agent in
    if certs_exist files a.tls_cert a.tls_key a.tls_ca_cert fs
    then secured (client_tls files a.tls_cert a.tls_key a.tls_ca_cert fs)
    else insecure

unfoldable pub heartbeat_sec : Option Config → ℕ
heartbeat_sec none = 30
heartbeat_sec (some cfg) =
    if is_positive cfg.agent.heartbeat_sec then cfg.agent.heartbeat_sec else 30

-- the argument of `time.NewTicker`, which panics unless it is positive
abbrev pub interval : Option Config → ℕ
interval cfg = mul_int (heartbeat_sec cfg) second

-- What the loop waits for.
pub data Event : Type 0 where
  tick signal : Event

abbrev is_ok : {A : Type 0} → Result A → Bool
is_ok (ok a) = true
is_ok (err e) = false

-- `hostname, _ := os.Hostname()`
abbrev pub or_unnamed : Result String → String
or_unnamed (ok hostname) = hostname
or_unnamed (err e) = ""

module _ {N T W : Type 0} (client : Client N T W) where
  -- The loop up to the signal: whether each heartbeat got an answer.
  unfoldable pub loop : N → String → List Event → W → W × List Bool
  loop conn id [] w = (w, [])
  loop conn id (signal ∷ events) w = (w, [])
  loop conn id (tick ∷ events) w =
      let (w', answer) = client.list_snapshots conn id w in
      let (w'', answers) = loop conn id events w' in (w'', is_ok answer ∷ answers)

  -- A registration that fails ends the program.
  registered : N → List Event → W × Result PbNode → W × Result (List Bool)
  registered conn events (w, err e) = (w, err ("Fallo registro: " ++ e))
  registered conn events (w, ok node) =
      let (w', answers) = loop conn node.id events w in (w', ok answers)

  dialled : Env → Result String → Option Config → List Event → W → Result N → W × Result (List Bool)
  unfolding registered
  dialled env hostname cfg events w (err e) = (w, err ("No pudo conectar: " ++ e))
  dialled env hostname cfg events w (ok conn) =
      registered conn events
        (client.register_node conn (or_unnamed hostname) (server_addr env cfg) (token env cfg) w)

  -- `main`, given the credentials: the answers of its heartbeats, or the error that ends it.
  unfoldable pub run :
      Env → Result String → Option Config → Transport T → List Event → W → W × Result (List Bool)
  unfolding dialled registered
  run env hostname cfg creds events w =
      dialled env hostname cfg events w (client.new_client (server_addr env cfg) creds)
