-- ===== src/Server/Sessions.antt =====
-- Logging in to the server of cmd/server/main.go, and what a login is good for.
use btrfs_snapah_pow.Base.{
  ℕ, ◌<◌, ◌≡◌, refl, sym, ap, ◌∙◌, inl, inr, String, ◌++◌, true, false, [], ok,
}
use mathlib.Core.Path.{subst}
use btrfs_snapah_pow.Http.{Json, end, field, Request, fresh, set_header}
use btrfs_snapah_pow.RateLimit.{allow, client_key}
use btrfs_snapah_pow.RateLimit.Middleware.{middleware_gate}
use btrfs_snapah_pow.Auth.{Manager, claims_for, generate, with_claims, middleware}
use btrfs_snapah_pow.Auth.Gate.{with_claims-Carries}
use btrfs_snapah_pow.Auth.Identity.{Carries}
use btrfs_snapah_pow.Auth.Tokens.{JwtLaws, session_passes}
use btrfs_snapah_pow.Auth.Users.{
  Bcrypt, User, new_user_store, add, authenticate, new_user, authenticate-add,
}
use btrfs_snapah_pow.Storage.Gorm.{Gorm}
use btrfs_snapah_pow.Server.Types.{LoginRequest, Libraries, Readings, Server}
use btrfs_snapah_pow.Server.Answers.{json_resp}
use btrfs_snapah_pow.Server.Handlers.{handle_login}
use btrfs_snapah_pow.Server.Admin.{or_default}
use btrfs_snapah_pow.Server.Routes.{Page, System, handle, guarded, serve_api, serve_login}
use btrfs_snapah_pow.Server.Start.{Seeds, seeded_users}

-- What bcrypt documents: the hash of a password fits that password.
abbrev pub HashFits : Bcrypt → Type 0
HashFits bcrypt =
    (salt : ℕ) (password hash : String)
    → bcrypt.generate_from_password salt password ≡ ok hash
    → bcrypt.compare_hash_and_password hash password ≡ true

module _ (g : Gorm) {C W B : Type 0} (lib : Libraries C W B) where
  open g use {Conn}

  -- what `handleLogin` answers to a login
  abbrev pub login_answer : String → User → Json
  login_answer token user = Json.obj (
      field "token" (Json.str token)
        (field "username" (Json.str user.username) (field "role" (Json.str user.role) end)))

  handle_login-ok :
      (rd : Readings) (r : Request B) (s : Server Conn C W) (req : LoginRequest) (user : User)
      (token : String)
      → r.method ≡ "POST"
      → lib.decode.login r.body ≡ ok req
      → authenticate lib.bcrypt s.users req.username req.password ≡ ok user
      → generate lib.jwt s.auth_mgr rd.now rd.later user.id user.username user.role ≡ ok token
      → handle_login g lib rd fresh r s ≡ (json_resp (login_answer token user) fresh, s)
  unfolding handle_login
  handle_login-ok rd r s req user token post decoded fits made = rw (post, decoded, fits, made) refl

  -- what the limiters let through goes to the handlers behind them
  serve_login-admitted :
      (rd : Readings) (r : Request B) (sys : System Conn C W)
      → (allow sys.login_limiter (client_key r) rd.clock).1 ≡ true
      → ((serve_login g lib rd fresh r sys).0 ≡ (handle_login g lib rd fresh r sys.server).0)
        × ((serve_login g lib rd fresh r sys).1.server
            ≡ (handle_login g lib rd fresh r sys.server).1)
  unfolding serve_login
  serve_login-admitted rd r sys admitted =
      let (counted, ways) =
        middleware_gate rd.clock (handle_login g lib rd) r sys.login_limiter sys.server in
      elim ways [
        | inl (on, hw, hs) ↦ (hw, hs)
        | inr (off, code, retry, hs) ↦ let clash : true ≡ false = sym admitted ∙ off in absurd cc
      ]

  serve_api-admitted :
      (page : Page) (rd : Readings) (r : Request B) (sys : System Conn C W)
      → (allow sys.api_limiter (client_key r) rd.clock).1 ≡ true
      → ((serve_api g lib page rd fresh r sys).0 ≡ (guarded g lib page rd fresh r sys.server).0)
        × ((serve_api g lib page rd fresh r sys).1.server
            ≡ (guarded g lib page rd fresh r sys.server).1)
  unfolding serve_api
  serve_api-admitted page rd r sys admitted =
      let (counted, ways) =
        middleware_gate rd.clock (guarded g lib page rd) r sys.api_limiter sys.server in
      elim ways [
        | inl (on, hw, hs) ↦ (hw, hs)
        | inr (off, code, retry, hs) ↦ let clash : true ≡ false = sym admitted ∙ off in absurd cc
      ]

  generate-Carries :
      (m : Manager) (t t' : ℕ) (user_id username role : String) (r : Request B)
      → Carries user_id username role r
          (with_claims (claims_for lib.jwt m t t' user_id username role) r)
  unfolding claims_for
  generate-Carries m t t' user_id username role r =
      with_claims-Carries (claims_for lib.jwt m t t' user_id username role) r

  -- A login that the limiter admits, with a password that fits, is answered with the token, the name
  -- and the role. Until it expires, that token takes every request that the other limiter admits to
  -- the handler of its page, in any later state of the server with the same token manager: the handler
  -- sees the request with the id, the name and the role of the user who logged in, whatever the
  -- request's own headers say, and gives the answer and the server's new state.
  pub login_session :
      (laws : JwtLaws lib.jwt) (rd rd' : Readings) (r r' : Request B) (sys sys' : System Conn C W)
      (req : LoginRequest) (user : User) (token : String) (page : Page)
      → r.method ≡ "POST"
      → lib.decode.login r.body ≡ ok req
      → authenticate lib.bcrypt sys.server.users req.username req.password ≡ ok user
      → generate lib.jwt sys.server.auth_mgr rd.now rd.later user.id user.username user.role
        ≡ ok token
      → (allow sys.login_limiter (client_key r) rd.clock).1 ≡ true
      → sys'.server.auth_mgr ≡ sys.server.auth_mgr
      → rd'.token_time
        < (claims_for lib.jwt sys.server.auth_mgr rd.now rd.later user.id user.username
            user.role).expires_at
      → (allow sys'.api_limiter
          (client_key (set_header "Authorization" ("Bearer " ++ token) r'))
          rd'.clock).1
        ≡ true
      → let sent = set_header "Authorization" ("Bearer " ++ token) r' in
        ((serve_login g lib rd fresh r sys).0 ≡ json_resp (login_answer token user) fresh)
        × ((serve_login g lib rd fresh r sys).1.server ≡ sys.server)
        × (seen : Request B) × Carries user.id user.username user.role sent seen
        × ((serve_api g lib page rd' fresh sent sys').0
            ≡ (handle g lib page rd' fresh seen sys'.server).0)
        × ((serve_api g lib page rd' fresh sent sys').1.server
            ≡ (handle g lib page rd' fresh seen sys'.server).1)
  login_session laws rd rd' r r' sys sys' req user token page post decoded fits made admitted same
        early admitted' =
      let m = sys.server.auth_mgr in
      let sent = set_header "Authorization" ("Bearer " ++ token) r' in
      let c = claims_for lib.jwt m rd.now rd.later user.id user.username user.role in
      let (login_w, login_s) = serve_login-admitted rd r sys admitted in
      let answered = handle_login-ok rd r sys.server req user token post decoded fits made in
      let (api_w, api_s) = serve_api-admitted page rd' sent sys' admitted' in
      let passes : guarded g lib page rd' fresh sent sys'.server
          ≡ handle g lib page rd' fresh (with_claims c sent) sys'.server =
        subst
          (λ x.
            middleware lib.jwt x rd'.token_time (handle g lib page rd') [] fresh sent sys'.server
            ≡ handle g lib page rd' fresh (with_claims c sent) sys'.server)
          (sym same)
          (session_passes lib.jwt laws m rd.now rd.later rd'.token_time user.id user.username
            user.role token (handle g lib page rd') r' sys'.server made early) in
      (
        login_w ∙ ap (λ o. o.0) answered,
        login_s ∙ ap (λ o. o.1) answered,
        with_claims c sent,
        generate-Carries m rd.now rd.later user.id user.username user.role sent,
        api_w ∙ ap (λ o. o.0) passes,
        api_s ∙ ap (λ o. o.1) passes,
      )

  -- Whatever the environment, the server starts with a user "operator" whose password is
  -- "operator123"; and "admin" has the password of the environment, or "admin123" where none is set.
  pub default_passwords :
      (seeds : Seeds) (hash operator_hash : String)
      → HashFits lib.bcrypt
      → lib.bcrypt.generate_from_password seeds.admin_salt
          (or_default (lib.env "SNAPAH_ADMIN_PASSWORD") "admin123")
        ≡ ok hash
      → lib.bcrypt.generate_from_password seeds.operator_salt "operator123" ≡ ok operator_hash
      → (authenticate lib.bcrypt (seeded_users g lib seeds) "operator" "operator123"
          ≡ ok (new_user lib.bcrypt seeds.operator_id "operator" operator_hash "operator"))
        × (authenticate lib.bcrypt
              (seeded_users g lib seeds)
              "admin"
              (or_default (lib.env "SNAPAH_ADMIN_PASSWORD") "admin123")
            ≡ ok (new_user lib.bcrypt seeds.admin_id "admin" hash "admin"))
  unfolding seeded_users
  default_passwords seeds hash operator_hash fits made operator_made =
      let password = or_default (lib.env "SNAPAH_ADMIN_PASSWORD") "admin123" in
      let users =
        (add lib.bcrypt new_user_store seeds.admin_salt seeds.admin_id "admin" password
          "admin").0 in
      (
        rw
            (
              authenticate-add lib.bcrypt users seeds.operator_salt seeds.operator_id "operator"
                  "operator123" "operator" operator_hash "operator" "operator123" operator_made,
              fits seeds.operator_salt "operator123" operator_hash operator_made,
            )
            refl,
        rw
            (
              authenticate-add lib.bcrypt users seeds.operator_salt seeds.operator_id "operator"
                  "operator123" "operator" operator_hash "admin" password operator_made,
              authenticate-add lib.bcrypt new_user_store seeds.admin_salt seeds.admin_id "admin"
                  password "admin" hash "admin" password made,
              fits seeds.admin_salt password hash made,
            )
            refl,
      )
