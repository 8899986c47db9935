-- ===== src/Config/Defaults.antt =====
-- What `Load` of internal/config/config.go gives where a key is not set.
use btrfs_snapah_pow.Base.{
  ℕ, ◌≡◌, refl, ◌∙◌, inl, inr, String, ◌==◌, Option, none, some, ok, Result-cases, if◌then◌else◌,
  arith,
}
use btrfs_snapah_pow.Config.{Config, Value, text, number, Viper, with_defaults, prepared, load}

-- a key's value as a number: zero where there is none
abbrev pub number_of : Option Value → ℕ
number_of none = 0
number_of (some (text s)) = 0
number_of (some (number n)) = n

abbrev pub or_else : Option Value → Option Value → Option Value
or_else none fallback = fallback
or_else (some x) fallback = some x

-- What viper documents: a key has the value that is set, by the file or the environment, or else its
-- default; and what is not there at all reads as zero.
pub record ViperLaws {V : Type 0} (viper : Viper V) : Type 0 where
  pub set_value : String → V → Option Value
  pub default_value : String → V → Option Value
  pub default_file :
      (path k : String) (v : V) → default_value k (viper.set_config_file path v) ≡ default_value k v
  pub default_prefix :
      (p k : String) (v : V) → default_value k (viper.set_env_prefix p v) ≡ default_value k v
  pub default_env :
      (k : String) (v : V) → default_value k (viper.automatic_env v) ≡ default_value k v
  pub default_set :
      (k k' : String) (x : Value) (v : V)
      → default_value k' (viper.set_default k x v)
        ≡ (if k == k' then some x else default_value k' v)
  pub default_read :
      (k : String) (v : V) → default_value k (viper.read_in_config v).0 ≡ default_value k v
  pub unmarshal_heartbeat :
      (v : V) (cfg : Config)
      → viper.unmarshal v ≡ ok cfg
      → cfg.agent.heartbeat_sec
        ≡ number_of (
            or_else
              (set_value "agent.heartbeat_seconds" v)
              (default_value "agent.heartbeat_seconds" v))
  pub unmarshal_expiry :
      (v : V) (cfg : Config)
      → viper.unmarshal v ≡ ok cfg
      → cfg.auth.token_expiry
        ≡ number_of (
            or_else
              (set_value "auth.token_expiry_hours" v)
              (default_value "auth.token_expiry_hours" v))

module _ {V : Type 0} (viper : Viper V) (laws : ViperLaws viper) where
  load-unmarshal :
      (path : String) (v v' : V) (cfg : Config)
      → load viper path v ≡ (v', ok cfg)
      → (viper.unmarshal v' ≡ ok cfg) × (v' ≡ (viper.read_in_config (prepared viper path v)).0)
  unfolding load
  load-unmarshal path v v' cfg h =
      elim (Result-cases (viper.unmarshal (viper.read_in_config (prepared viper path v)).0)) [
        | inl (c, good) ↦ ground arith
        | inr (e, bad) ↦ ground arith
      ]

  -- Where nothing sets the expiry of tokens, they are valid for 0 hours: it has no default.
  pub load_expiry :
      (path : String) (v v' : V) (cfg : Config)
      → load viper path v ≡ (v', ok cfg)
      → laws.default_value "auth.token_expiry_hours" v ≡ none
      → laws.set_value "auth.token_expiry_hours" v' ≡ none
      → cfg.auth.token_expiry ≡ 0
  unfolding prepared with_defaults
  load_expiry path v v' cfg loaded new unset =
      let (good, same) = load-unmarshal path v v' cfg loaded in
      laws.unmarshal_expiry v' cfg good
      ∙ rw
          (
            unset, same, laws.default_read, laws.default_set, laws.default_set, laws.default_set,
            laws.default_set, laws.default_set, laws.default_set, laws.default_env,
            laws.default_prefix, laws.default_file, new,
          )
          refl

  -- Where neither the file nor the environment sets them, a loaded configuration has a heartbeat of 30
  -- seconds, and tokens that are valid for 0 hours.
  pub load_unset :
      (path : String) (v v' : V) (cfg : Config)
      → load viper path v ≡ (v', ok cfg)
      → laws.default_value "auth.token_expiry_hours" v ≡ none
      → laws.set_value "agent.heartbeat_seconds" v' ≡ none
      → laws.set_value "auth.token_expiry_hours" v' ≡ none
      → (cfg.agent.heartbeat_sec ≡ 30) × (cfg.auth.token_expiry ≡ 0)
  unfolding prepared with_defaults
  load_unset path v v' cfg loaded new no_heartbeat no_expiry =
      let (good, same) = load-unmarshal path v v' cfg loaded in
      (
        laws.unmarshal_heartbeat v' cfg good
            ∙ rw (no_heartbeat, same, laws.default_read, laws.default_set) refl,
        load_expiry path v v' cfg loaded new no_expiry,
      )
