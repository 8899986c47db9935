-- ===== src/Server/Access.antt =====
-- Who can change the server of cmd/server/main.go through its routes.
use btrfs_snapah_pow.Base.{
  ◌≡◌, refl, ◌⊎◌, inl, inr, ap, ◌∙◌, String, ◌==◌, Bool, true, false, not, [], ok, err, Bool-cases,
  arith,
}
use btrfs_snapah_pow.Http.{Writer, Request, fresh, status}
use btrfs_snapah_pow.Auth.{Claims, validate, extract_token}
use btrfs_snapah_pow.Auth.Identity.{Carries}
use btrfs_snapah_pow.Auth.Gate.{Gated, unauthorized, unlisted, passed, middleware-Gated}
use btrfs_snapah_pow.Hub
use btrfs_snapah_pow.RateLimit.{allow, client_key}
use btrfs_snapah_pow.RateLimit.Middleware.{middleware_gate}
use btrfs_snapah_pow.Storage.Gorm.{Gorm}
use btrfs_snapah_pow.Server.Types.{Libraries, Readings, Server}
use btrfs_snapah_pow.Server.Handlers.{
  role_of, unprivileged, handle_login, handle_nodes, handle_events, handle_delete_snapshot,
  handle_restore, handle_replicate, handle_replication_jobs,
}
use btrfs_snapah_pow.Server.Admin.{
  handle_policies, handle_api_keys, handle_revoke_api_key, handle_alert_test, handle_alert_config,
}
use btrfs_snapah_pow.Server.Routes.{
  Page, nodes, snapshots, snapshots_delete, events, policies, restore, keys, keys_revoke,
  alerts_test, alerts_config, replicate, replication_jobs, Route, static, health, ws_events, login,
  api, route_of, System, handle, guarded, serve_api, serve_login, serve_route, serve,
}

-- The permissions that the handlers enforce: the roles that can change something through a page.
-- Every role can make snapshots.
abbrev pub may_change : Page → String → Bool
may_change snapshots role = true
may_change snapshots_delete role = not (unprivileged role)
may_change restore role = not (unprivileged role)
may_change replicate role = not (unprivileged role)
may_change policies role = role == "admin"
may_change keys role = role == "admin"
may_change keys_revoke role = role == "admin"
may_change alerts_test role = role == "admin"
may_change _ role = false

module _ (g : Gorm) {C W B : Type 0} (lib : Libraries C W B) where
  open g use {Conn}

  handle_confined :
      (page : Page) (rd : Readings) (w : Writer) (r : Request B) (s : Server Conn C W)
      → may_change page (role_of r) ≡ false
      → (handle g lib page rd w r s).1 ≡ s
  unfolding handle handle_nodes handle_events handle_delete_snapshot handle_restore handle_replicate
      handle_replication_jobs handle_policies handle_api_keys handle_revoke_api_key
      handle_alert_test handle_alert_config
  handle_confined nodes rd w r s h = refl
  handle_confined events rd w r s h = refl
  handle_confined replication_jobs rd w r s h = refl
  handle_confined alerts_config rd w r s h = ground arith
  handle_confined snapshots rd w r s h = absurd cc
  handle_confined snapshots_delete rd w r s h = ground arith
  handle_confined restore rd w r s h = ground arith
  handle_confined replicate rd w r s h = ground arith
  handle_confined policies rd w r s h = ground arith
  handle_confined keys rd w r s h = ground arith
  handle_confined keys_revoke rd w r s h = ground arith
  handle_confined alerts_test rd w r s h = ground arith

  -- How an API request ends: over the limit, without a token that validates, or with the handler's
  -- answer to the request with the token's claims.
  pub data Ended (page : Page) (rd : Readings) (r : Request B) (sys : System Conn C W)
      : Writer × System Conn C W → Type 0 where
    over_limit :
        {o : Writer × System Conn C W}
        → (allow sys.api_limiter (client_key r) rd.clock).1 ≡ false
        → status o.0 ≡ 429
        → o.1.server ≡ sys.server
        → Ended page rd r sys o
    no_token :
        {o : Writer × System Conn C W}
        → (allow sys.api_limiter (client_key r) rd.clock).1 ≡ true
        → (extract_token r ≡ "")
          ⊎ ((e : String) × (validate lib.jwt sys.server.auth_mgr rd.token_time (extract_token r)
                ≡ err e))
        → status o.0 ≡ 401
        → o.1.server ≡ sys.server
        → Ended page rd r sys o
    handled :
        {o : Writer × System Conn C W} (c : Claims) (r' : Request B)
        → (allow sys.api_limiter (client_key r) rd.clock).1 ≡ true
        → validate lib.jwt sys.server.auth_mgr rd.token_time (extract_token r) ≡ ok c
        → Carries c.user_id c.username c.role r r'
        → o.0 ≡ (handle g lib page rd fresh r' sys.server).0
        → o.1.server ≡ (handle g lib page rd fresh r' sys.server).1
        → Ended page rd r sys o

  admitted_Ended :
      (page : Page) (rd : Readings) (r : Request B) (sys : System Conn C W)
      (o : Writer × System Conn C W) (a : Writer × Server Conn C W)
      → (allow sys.api_limiter (client_key r) rd.clock).1 ≡ true
      → Gated lib.jwt sys.server.auth_mgr rd.token_time (handle g lib page rd) [] r sys.server a
      → o.0 ≡ a.0
      → o.1.server ≡ a.1
      → Ended page rd r sys o
  admitted_Ended page rd r sys o a on (unauthorized bad code same) hw hs =
      no_token on bad (ap status hw ∙ code) (hs ∙ same)
  admitted_Ended page rd r sys o a on (unlisted c good listed absent code same) hw hs =
      absurd (listed refl)
  admitted_Ended page rd r sys o a on (passed c r' good roles carries e) hw hs =
      handled c r' on good carries (hw ∙ ap (λ x. x.0) e) (hs ∙ ap (λ x. x.1) e)

  -- A request for a page of the API ends in one of three ways: 429, when its client is over the limit;
  -- 401, when it has no token or one that does not validate; or with the answer of the page's handler
  -- to the request as it came, but with the user, the name and the role of the token in the internal
  -- headers. The server's state is changed by that handler alone.
  pub serve_api-Ended :
      (page : Page) (rd : Readings) (r : Request B) (sys : System Conn C W)
      → Ended page rd r sys (serve_api g lib page rd fresh r sys)
  unfolding serve_api
  serve_api-Ended page rd r sys =
      let (counted, ways) =
        middleware_gate rd.clock (guarded g lib page rd) r sys.api_limiter sys.server in
      elim ways [
        | inl (on, hw, hs) ↦
            admitted_Ended page rd r sys _ (guarded g lib page rd fresh r sys.server) on
              (middleware-Gated lib.jwt sys.server.auth_mgr rd.token_time (handle g lib page rd) []
                r sys.server)
              hw hs
        | inr (off, code, retry, hs) ↦ over_limit off code hs
      ]

  -- What a request may do to the server's state: nothing; to add a client to the hub, over
  -- "/ws/events"; or what a page does whose permissions the role of a valid token has.
  pub data Allowed (path : String) (rd : Readings) (r : Request B) (s : Server Conn C W)
      : Server Conn C W → Type 0 where
    unchanged : {s' : Server Conn C W} → s' ≡ s → Allowed path rd r s s'
    joined :
        {s' : Server Conn C W}
        → route_of path ≡ ws_events
        → s' ≡ record s { hub = Hub.join rd.address s.hub }
        → Allowed path rd r s s'
    permitted :
        {s' : Server Conn C W} (page : Page) (c : Claims)
        → route_of path ≡ api page
        → validate lib.jwt s.auth_mgr rd.token_time (extract_token r) ≡ ok c
        → may_change page c.role ≡ true
        → Allowed path rd r s s'

  ended_Allowed :
      (path : String) (page : Page) (rd : Readings) (r : Request B) (sys : System Conn C W)
      (o : Writer × System Conn C W)
      → route_of path ≡ api page
      → Ended page rd r sys o
      → Allowed path rd r sys.server o.1.server
  ended_Allowed path page rd r sys o at (over_limit off code same) = unchanged same
  ended_Allowed path page rd r sys o at (no_token on bad code same) = unchanged same
  ended_Allowed path page rd r sys o at (handled c r' on good carries hw hs) =
      elim (Bool-cases (may_change page c.role)) [
        | inl may ↦ permitted page c at good may
        | inr may_not ↦ unchanged (
            hs
            ∙ handle_confined page rd fresh r' sys.server
                (ap (may_change page) carries.user_role ∙ may_not))
      ]

  login_kept :
      (rd : Readings) (w : Writer) (r : Request B) (s : Server Conn C W)
      → (handle_login g lib rd w r s).1 ≡ s
  unfolding handle_login
  login_kept rd w r s = ground arith

  pub serve_login-kept :
      (rd : Readings) (r : Request B) (sys : System Conn C W)
      → (serve_login g lib rd fresh r sys).1.server ≡ sys.server
  unfolding serve_login
  serve_login-kept rd r sys =
      let (counted, ways) =
        middleware_gate rd.clock (handle_login g lib rd) r sys.login_limiter sys.server in
      elim ways [
        | inl (on, hw, hs) ↦ hs ∙ login_kept rd fresh r sys.server
        | inr (off, code, retry, hs) ↦ hs
      ]

  module _ (files : Writer → Request B → Writer) (accept : Writer → Request B → Writer × Bool) where
    route_Allowed :
        (path : String) (route : Route) (rd : Readings) (r : Request B) (sys : System Conn C W)
        → route_of path ≡ route
        → Allowed path rd r sys.server
            (serve_route g lib files accept route rd fresh r sys).1.server
    unfolding serve_route
    route_Allowed path static rd r sys at = unchanged refl
    route_Allowed path health rd r sys at = unchanged refl
    route_Allowed path ws_events rd r sys at = elim (Bool-cases (accept fresh r).1) [
      | inl on ↦ rw on (joined at refl)
      | inr off ↦ rw off (unchanged refl)
    ]
    route_Allowed path login rd r sys at = unchanged (serve_login-kept rd r sys)
    route_Allowed path (api page) rd r sys at =
        ended_Allowed path page rd r sys _ at (serve_api-Ended page rd r sys)

    -- Whatever the request and its path, the server's state stays as it is, but for a client that
    -- joins the hub, and for a page of the API whose token validates and has a role that may change
    -- something there.
    pub serve-Allowed :
        (path : String) (rd : Readings) (r : Request B) (sys : System Conn C W)
        → Allowed path rd r sys.server (serve g lib files accept path rd fresh r sys).1.server
    unfolding serve
    serve-Allowed path rd r sys = route_Allowed path (route_of path) rd r sys refl
