-- ===== src/Server/Routes.antt =====
-- The routes of `main` in cmd/server/main.go: which handler stands behind which path and which
-- middlewares. The mux gives the path as it has cleaned it; the static files are the parameter
-- `files`, and the handshake of a WebSocket is `accept`.
use btrfs_snapah_pow.Base.{String, Bool, [], ◌∷◌, Option, none, some, GoMap, lookup, if◌then◌else◌}
use btrfs_snapah_pow.Http.{Handler, Writer, Request, Json, end, field}
use btrfs_snapah_pow.RateLimit
use btrfs_snapah_pow.RateLimit.{Limiter}
use btrfs_snapah_pow.Auth
use btrfs_snapah_pow.Hub
use btrfs_snapah_pow.Storage.Gorm.{Gorm}
use btrfs_snapah_pow.Server.Types.{Libraries, Readings, Server}
use btrfs_snapah_pow.Server.Answers.{json_resp}
use btrfs_snapah_pow.Server.Handlers.{
  handle_login, handle_nodes, handle_events, handle_snapshots, handle_delete_snapshot,
  handle_restore, handle_replicate, handle_replication_jobs,
}
use btrfs_snapah_pow.Server.Admin.{
  handle_policies, handle_api_keys, handle_revoke_api_key, handle_alert_test, handle_alert_config,
}

-- The handlers behind the limiter and the token.
pub data Page : Type 0 where
  nodes snapshots snapshots_delete events policies restore keys keys_revoke : Page
  alerts_test alerts_config replicate replication_jobs : Page

pub data Route : Type 0 where
  static health ws_events login : Route
  api : Page → Route

-- `mux.HandleFunc`
unfoldable pub routes : GoMap Route
routes =
    ("/health", health)
    ∷ ("/api/auth/login", login)
    ∷ ("/api/nodes", api nodes)
    ∷ ("/api/snapshots", api snapshots)
    ∷ ("/api/snapshots/delete", api snapshots_delete)
    ∷ ("/api/events", api events)
    ∷ ("/api/policies", api policies)
    ∷ ("/api/restore", api restore)
    ∷ ("/ws/events", ws_events)
    ∷ ("/api/keys", api keys)
    ∷ ("/api/keys/revoke", api keys_revoke)
    ∷ ("/api/alerts/test", api alerts_test)
    ∷ ("/api/alerts/config", api alerts_config)
    ∷ ("/api/replicate", api replicate)
    ∷ ("/api/replication/jobs", api replication_jobs)
    ∷ []

abbrev or_static : Option Route → Route
or_static none = static
or_static (some route) = route

-- The mux: every other path is that of a file.
unfoldable pub route_of : String → Route
route_of path = or_static (lookup path routes)

-- The two limiters and the server.
pub record System (D C W : Type 0) : Type 0 where
  pub login_limiter : Limiter
  pub api_limiter : Limiter
  pub server : Server D C W

module _ (g : Gorm) {C W B : Type 0} (lib : Libraries C W B) where
  open g use {Conn}

  unfoldable pub handle : Page → Readings → Handler B (Server Conn C W)
  handle nodes rd = handle_nodes g lib
  handle snapshots rd = handle_snapshots g lib rd
  handle snapshots_delete rd = handle_delete_snapshot g lib
  handle events rd = handle_events g lib
  handle policies rd = handle_policies g lib rd
  handle restore rd = handle_restore g lib rd
  handle keys rd = handle_api_keys g lib rd
  handle keys_revoke rd = handle_revoke_api_key g lib
  handle alerts_test rd = handle_alert_test g lib rd
  handle alerts_config rd = handle_alert_config g lib
  handle replicate rd = handle_replicate g lib rd
  handle replication_jobs rd = handle_replication_jobs g lib

  -- `srv.authMgr.Middleware(handler)`
  abbrev pub guarded : Page → Readings → Handler B (Server Conn C W)
  guarded page rd w r s = Auth.middleware lib.jwt s.auth_mgr rd.token_time (handle page rd) [] w r s

  -- `apiLimiter.Middleware(srv.authMgr.Middleware(handler))`
  unfoldable pub serve_api : Page → Readings → Handler B (System Conn C W)
  serve_api page rd w r sys =
      let (w', (l, s)) =
        RateLimit.middleware rd.clock (guarded page rd) w r (sys.api_limiter, sys.server) in
      (w', record sys { api_limiter = l; server = s })

  -- `loginLimiter.Middleware(srv.handleLogin)`
  unfoldable pub serve_login : Readings → Handler B (System Conn C W)
  serve_login rd w r sys =
      let (w', (l, s)) =
        RateLimit.middleware rd.clock (handle_login g lib rd) w r (sys.login_limiter, sys.server) in
      (w', record sys { login_limiter = l; server = s })

  module _ (files : Writer → Request B → Writer) (accept : Writer → Request B → Writer × Bool) where
    -- `ServeWS`: a handshake that succeeds makes a client, which no token is asked of; of one that
    -- fails, the library writes the error.
    abbrev serve_ws : Readings → Handler B (System Conn C W)
    serve_ws rd w r sys =
        let (w', accepted) = accept w r in
        (
          w',
          if accepted
              then record sys {
                server = record sys.server { hub = Hub.join rd.address sys.server.hub };
              }
              else sys,
        )

    unfoldable pub serve_route : Route → Readings → Handler B (System Conn C W)
    serve_route static rd w r sys = (files w r, sys)
    serve_route health rd w r sys = (
      json_resp
          (Json.obj
            (field "status" (Json.str "ok") (field "version" (Json.str lib.app_version) end)))
          w,
      sys,
    )
    serve_route ws_events rd w r sys = serve_ws rd w r sys
    serve_route login rd w r sys = serve_login rd w r sys
    serve_route (api page) rd w r sys = serve_api page rd w r sys

    unfoldable pub serve : String → Readings → Handler B (System Conn C W)
    unfolding serve_route
    serve path rd w r sys = serve_route (route_of path) rd w r sys
