-- ===== src/Server/Expiry.antt =====
-- The tokens of a server of cmd/server/main.go whose configuration does not say how long they last.
use btrfs_snapah_pow.Base.{
  ℕ, ◌≤◌, ◌≡◌, refl, ap, ◌∙◌, String, ◌++◌, none, [], Result, ok, err, ◌>>=◌, arith,
}
use btrfs_snapah_pow.Base.Int.{hour, mul_int, add_duration}
use btrfs_snapah_pow.Http.{Request, fresh, status, set_header}
use btrfs_snapah_pow.Auth.{Manager, new_manager, claims_for, generate}
use btrfs_snapah_pow.Auth.Tokens.{JwtLaws, expired_refused}
use btrfs_snapah_pow.Config.{Config, Viper, load}
use btrfs_snapah_pow.Config.Defaults.{ViperLaws, load_expiry}
use btrfs_snapah_pow.Replication.{Job}
use btrfs_snapah_pow.Storage.Gorm.{Gorm}
use btrfs_snapah_pow.Server.Types.{Libraries, Readings}
use btrfs_snapah_pow.Server.Routes.{Page, System, handle, guarded}
use btrfs_snapah_pow.Server.Begins.{first_system, start_system-first}
use btrfs_snapah_pow.Server.Start.{Seeds, new_server, start_system, start_main}

module _ (g : Gorm) {C W B V : Type 0} (lib : Libraries C W B) (viper : Viper V)
    (laws : ViperLaws viper) where
  open g use {Conn}

  begin_manager :
      (seeds : Seeds) (secret : String) (expiry : ℕ) (memory : ℕ → Job) (world : W) (conn : Conn)
      → (first_system g lib seeds secret expiry memory world conn).server.auth_mgr
        ≡ new_manager secret expiry
  unfolding new_server
  begin_manager seeds secret expiry memory world conn = refl

  configured :
      (seeds : Seeds) (memory : ℕ → Job) (world : W) (sys : System Conn C W) (r : Result Config)
      → (r >>= (λ cfg.
          start_system g lib seeds cfg.auth.jwt_secret cfg.auth.token_expiry memory world))
        ≡ ok sys
      → (cfg : Config) × (r ≡ ok cfg)
        × (start_system g lib seeds cfg.auth.jwt_secret cfg.auth.token_expiry memory world ≡ ok sys)
  configured seeds memory world sys (err e) h = absurd cc
  configured seeds memory world sys (ok cfg) h = (cfg, refl, h)

  main_manager :
      (v : V) (seeds : Seeds) (memory : ℕ → Job) (world : W) (sys : System Conn C W)
      → start_main g lib viper v seeds memory world ≡ ok sys
      → laws.default_value "auth.token_expiry_hours" v ≡ none
      → laws.set_value "auth.token_expiry_hours" (load viper "config.yaml" v).0 ≡ none
      → sys.server.auth_mgr.expiry_hours ≡ 0
  unfolding start_main new_manager
  main_manager v seeds memory world sys started new unset =
      let read = load viper "config.yaml" v in
      let (cfg, good, opened) = configured seeds memory world sys read.1 started in
      let a = cfg.auth in
      let (conn, begins) =
        start_system-first g lib seeds a.jwt_secret a.token_expiry memory world sys opened in
      ap (λ x. x.server.auth_mgr.expiry_hours) begins
      ∙ ap (λ m. m.expiry_hours) (begin_manager seeds a.jwt_secret a.token_expiry memory world conn)
      ∙ load_expiry viper laws "config.yaml" v read.0 cfg (ap (λ r. (read.0, r)) good) new unset

  no_time_left :
      (m : Manager) (t t' now : ℕ) (user_id username role : String)
      → m.expiry_hours ≡ 0
      → lib.jwt.numeric_date t ≤ t
      → t ≤ now
      → (claims_for lib.jwt m t t' user_id username role).expires_at ≤ now
  unfolding claims_for
  no_time_left m t t' now user_id username role never rounds later =
      let same : add_duration t (mul_int m.expiry_hours hour) ≡ t = rw never (omega arith) in
      rw same (omega (arith, rounds, later))

  -- A server whose configuration does not set the expiry of tokens refuses its own: whatever token it
  -- has made for a user, a request with it is answered 401 by every page, from the moment of the
  -- login on. The times of tokens are rounded down, as the JWT library does.
  pub unset_expiry_refused :
      (tokens : JwtLaws lib.jwt) (v : V) (seeds : Seeds) (memory : ℕ → Job) (world : W)
      (sys : System Conn C W) (rd rd' : Readings) (user_id username role token : String)
      (page : Page) (r : Request B)
      → start_main g lib viper v seeds memory world ≡ ok sys
      → laws.default_value "auth.token_expiry_hours" v ≡ none
      → laws.set_value "auth.token_expiry_hours" (load viper "config.yaml" v).0 ≡ none
      → lib.jwt.numeric_date rd.now ≤ rd.now
      → generate lib.jwt sys.server.auth_mgr rd.now rd.later user_id username role ≡ ok token
      → rd.now ≤ rd'.token_time
      → let sent = set_header "Authorization" ("Bearer " ++ token) r in
        let (w', s') = guarded g lib page rd' fresh sent sys.server in
        (status w' ≡ 401) × (s' ≡ sys.server)
  unset_expiry_refused tokens v seeds memory world sys rd rd' user_id username role token page r
        started new unset rounds made later =
      expired_refused lib.jwt tokens sys.server.auth_mgr rd.now rd.later rd'.token_time user_id
        username role token (handle g lib page rd') [] r sys.server made
        (no_time_left sys.server.auth_mgr rd.now rd.later rd'.token_time user_id username role
          (main_manager v seeds memory world sys started new unset) rounds later)
