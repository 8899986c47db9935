-- ===== src/Server/Begins.antt =====
-- The state in which the server of cmd/server/main.go begins.
use btrfs_snapah_pow.Base.{ℕ, ◌≡◌, String, Result, ok, err, ◌>>=◌}
use btrfs_snapah_pow.Base.Int.{minute}
use btrfs_snapah_pow.RateLimit
use btrfs_snapah_pow.Replication.{Job}
use btrfs_snapah_pow.Storage.Gorm.{Gorm}
use btrfs_snapah_pow.Server.Types.{Libraries}
use btrfs_snapah_pow.Server.Routes.{System}
use btrfs_snapah_pow.Server.Start.{Seeds, new_server, start_system}

module _ (g : Gorm) {C W B : Type 0} (lib : Libraries C W B) where
  open g use {Conn}

  -- the limiters and the server over an open database
  abbrev pub first_system : Seeds → String → ℕ → (ℕ → Job) → W → Conn → System Conn C W
  first_system seeds secret expiry memory world conn = record {
    login_limiter = RateLimit.new 10 minute;
    api_limiter = RateLimit.new 200 minute;
    server = new_server g lib seeds secret expiry conn memory world;
  }

  opened :
      (seeds : Seeds) (secret : String) (expiry : ℕ) (memory : ℕ → Job) (world : W)
      (database : Result Conn) (sys : System Conn C W)
      → (database >>= (λ conn. ok (first_system seeds secret expiry memory world conn))) ≡ ok sys
      → (conn : Conn) × (sys ≡ first_system seeds secret expiry memory world conn)
  opened seeds secret expiry memory world (err e) sys h = absurd cc
  opened seeds secret expiry memory world (ok conn) sys h = (conn, cc)

  pub start_system-first :
      (seeds : Seeds) (secret : String) (expiry : ℕ) (memory : ℕ → Job) (world : W)
      (sys : System Conn C W)
      → start_system g lib seeds secret expiry memory world ≡ ok sys
      → (conn : Conn) × (sys ≡ first_system seeds secret expiry memory world conn)
  unfolding start_system
  start_system-first seeds secret expiry memory world sys started =
      opened seeds secret expiry memory world _ sys started
