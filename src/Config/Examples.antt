-- ===== src/Config/Examples.antt =====
-- A configuration read from defaults alone.
use btrfs_snapah_pow.Base.{◌≡◌, refl, Result}
use btrfs_snapah_pow.Config.{Config, load}
use btrfs_snapah_pow.Config.Defaults.{load_unset}
use btrfs_snapah_pow.Config.Demo.{Defaulted, config_of, toy_viper, toy_laws, nothing_set}

abbrev loaded : Defaulted × Result Config
loaded = load toy_viper "config.yaml" nothing_set

load_unset_run :
    ((config_of loaded.0).agent.heartbeat_sec ≡ 30) × ((config_of loaded.0).auth.token_expiry ≡ 0)
unfolding load toy_laws
load_unset_run =
    load_unset toy_viper toy_laws "config.yaml" nothing_set loaded.0 (config_of loaded.0) refl refl
      refl refl
