-- ===== src/Agent/Settings.antt =====
-- The settings of the agent of cmd/agent/main.go.
use btrfs_snapah_pow.Base.{
  ◌≤◌, ◌≡◌, ◌≢◌, refl, ◌⊎◌, String, true, Option, none, some, eq_iff, arith,
}
use mathlib.Core.Option
use btrfs_snapah_pow.Base.Int.{is_positive}
use btrfs_snapah_pow.Alerts.{Env}
use btrfs_snapah_pow.Config.{Config}
use btrfs_snapah_pow.Agent.{configured, server_addr, token, heartbeat_sec, interval}

-- A setting that is taken from the environment if it has one, or else from a configuration that has
-- one, or else is the fallback.
abbrev pub Chosen : String → Option String → String → String → Type 0
Chosen value none fallback x = ((value ≢ "") × (x ≡ value)) ⊎ ((value ≡ "") × (x ≡ fallback))
Chosen value (some configured) fallback x =
    ((value ≢ "") × (x ≡ value))
    ⊎ ((value ≡ "") × (configured ≢ "") × (x ≡ configured))
    ⊎ ((value ≡ "") × (configured ≡ "") × (x ≡ fallback))

configured-Chosen :
    (value : String) (f : Config → String) (cfg : Option Config) (fallback : String)
    → Chosen value (Option.map f cfg) fallback (configured value f cfg fallback)
unfolding configured
configured-Chosen value f none fallback = ground (arith, eq_iff value "")
configured-Chosen value f (some cfg) fallback = ground (arith, eq_iff value "", eq_iff (f cfg) "")

-- The address and the token are those of the environment, or else of the configuration, or else the
-- defaults, and never empty.
pub settings-Chosen :
    (env : Env) (cfg : Option Config)
    → Chosen
        (env "SNAPAH_SERVER")
        (Option.map (λ c. c.agent.server_address) cfg)
        "localhost:9090"
        (server_addr env cfg)
      × Chosen
          (env "SNAPAH_TOKEN")
          (Option.map (λ c. c.agent.token) cfg)
          "demo-token"
          (token env cfg)
unfolding server_addr token
settings-Chosen env cfg = (
  configured-Chosen (env "SNAPAH_SERVER") (λ c. c.agent.server_address) cfg "localhost:9090",
  configured-Chosen (env "SNAPAH_TOKEN") (λ c. c.agent.token) cfg "demo-token",
)

-- The ticker is made with a positive interval, whatever the configuration says and if there is none,
-- unless the heartbeat is above 9223372036 seconds.
pub interval_positive :
    (cfg : Option Config) → heartbeat_sec cfg ≤ 9223372036 → is_positive (interval cfg) ≡ true
unfolding heartbeat_sec
interval_positive none h = refl
interval_positive (some cfg) h = ground arith
