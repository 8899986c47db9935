-- ===== src/Config.antt =====
-- internal/config/config.go. The viper library, whose state is global, is the parameter `Viper`; an
-- `int` is a bit pattern.
pub mod Defaults
pub mod Demo
mod Examples
use btrfs_snapah_pow.Base.{ℕ, String, ◌++◌, Bool, Option, none, some, Result, ok, err}

pub record ServerConfig : Type 0 where
  pub host : String
  pub port : ℕ
  pub grpc_port : ℕ
  pub tls_enabled : Bool
  pub tls_cert : String
  pub tls_key : String
  pub tls_ca_cert : String

pub record DatabaseConfig : Type 0 where
  pub driver : String
  pub host : String
  pub port : ℕ
  pub user : String
  pub password : String
  pub database : String

pub record AuthConfig : Type 0 where
  pub jwt_secret : String
  pub token_expiry : ℕ
  pub mtls_enabled : Bool

pub record BtrfsConfig : Type 0 where
  pub default_snapshot_dir : String
  pub max_snapshot_size_gb : ℕ

pub record AgentConfig : Type 0 where
  pub server_address : String
  pub node_id : String
  pub token : String
  pub heartbeat_sec : ℕ
  pub tls_cert : String
  pub tls_key : String
  pub tls_ca_cert : String

pub record Config : Type 0 where
  pub server : ServerConfig
  pub database : DatabaseConfig
  pub auth : AuthConfig
  pub btrfs : BtrfsConfig
  pub agent : AgentConfig

-- a value that a key can have
pub data Value : Type 0 where
  text : String → Value
  number : ℕ → Value

-- The error of `ReadInConfig`: `not_found` is a `ConfigFileNotFoundError`.
pub data ReadError : Type 0 where
  not_found unreadable : String → ReadError

pub record Viper (V : Type 0) : Type 0 where
  pub set_config_file : String → V → V
  pub set_env_prefix : String → V → V
  pub automatic_env : V → V
  pub set_default : String → Value → V → V
  pub read_in_config : V → V × Option ReadError
  pub unmarshal : V → Result Config

module _ {V : Type 0} (viper : Viper V) where
  -- the calls of `SetDefault`
  unfoldable pub with_defaults : V → V
  with_defaults v =
      let v₁ = viper.set_default "server.host" (text "0.0.0.0") v in
      let v₂ = viper.set_default "server.port" (number 8080) v₁ in
      let v₃ = viper.set_default "server.grpc_port" (number 9090) v₂ in
      let v₄ = viper.set_default "database.driver" (text "sqlite") v₃ in
      let v₅ = viper.set_default "btrfs.default_snapshot_dir" (text ".snapshots") v₄ in
      viper.set_default "agent.heartbeat_seconds" (number 30) v₅

  parsed : Result Config → Result Config
  parsed (err e) = err ("error parseando config: " ++ e)
  parsed (ok cfg) = ok cfg

  -- what follows `ReadInConfig`
  read : V × Option ReadError → V × Result Config
  unfolding parsed
  read (v, some (unreadable e)) = (v, err ("error leyendo config: " ++ e))
  read (v, some (not_found e)) = (v, parsed (viper.unmarshal v))
  read (v, none) = (v, parsed (viper.unmarshal v))

  -- what stands before `ReadInConfig`
  unfoldable pub prepared : String → V → V
  prepared path v =
      with_defaults
        (viper.automatic_env (viper.set_env_prefix "SNAPAH" (viper.set_config_file path v)))

  unfoldable pub load : String → V → V × Result Config
  unfolding read parsed
  load path v = read (viper.read_in_config (prepared path v))
