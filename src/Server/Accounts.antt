-- ===== src/Server/Accounts.antt =====
-- The users of the server of cmd/server/main.go: the two of `newServer`, whatever happens.
use btrfs_snapah_pow.Base.{
  ℕ, ◌≡◌, refl, ◌⊎◌, inl, inr, ap, ◌∙◌, String, Bool, some, ok, lookup, lookup-insert, Bool-cases,
  Result-cases, Option-cases, eq_iff, arith,
}
use mathlib.Core.Path.{subst}
use btrfs_snapah_pow.Http.{Writer, Request, fresh}
use btrfs_snapah_pow.Auth.Users.{UserStore, User, add, authenticate}
use btrfs_snapah_pow.Replication.{Job}
use btrfs_snapah_pow.Scheduler.Policies.{CronLaws}
use btrfs_snapah_pow.Storage.Gorm.{Gorm}
use btrfs_snapah_pow.Server.Types.{Libraries, Readings, Server}
use btrfs_snapah_pow.Server.Grpc.{
  register_node, rpc_create_snapshot, rpc_delete_snapshot, start_stream,
}
use btrfs_snapah_pow.Server.Handlers.{
  handle_nodes, handle_events, handle_snapshots, handle_delete_snapshot, handle_restore,
  handle_replicate, handle_replication_jobs,
}
use btrfs_snapah_pow.Server.Admin.{
  handle_policies, handle_api_keys, handle_revoke_api_key, handle_alert_test, handle_alert_config,
}
use btrfs_snapah_pow.Server.Routes.{
  Page, nodes, snapshots, snapshots_delete, events, policies, restore, keys, keys_revoke,
  alerts_test, alerts_config, replicate, replication_jobs, Route, static, health, ws_events, login,
  api, route_of, System, handle, serve_route, serve,
}
use btrfs_snapah_pow.Server.Start.{Seeds, seeded_users, new_server, start_system}
use btrfs_snapah_pow.Server.Begins.{first_system, start_system-first}
use btrfs_snapah_pow.Server.Access.{
  Ended, over_limit, no_token, handled, serve_api-Ended, serve_login-kept,
}
use btrfs_snapah_pow.Server.Runs.{
  Step, Reach, request, register, create, delete, stream, begin_replication, end_replication, fire,
  sweep_limiters, outside, here, next,
}

module _ (g : Gorm) {C W B : Type 0} (lib : Libraries C W B) where
  open g use {Conn}

  handle-users :
      (page : Page) (rd : Readings) (w : Writer) (r : Request B) (s : Server Conn C W)
      → (handle g lib page rd w r s).1.users ≡ s.users
  unfolding handle handle_nodes handle_events handle_delete_snapshot handle_restore handle_replicate
      handle_replication_jobs handle_policies handle_api_keys handle_revoke_api_key
      handle_alert_test handle_alert_config handle_snapshots rpc_create_snapshot rpc_delete_snapshot
  handle-users nodes rd w r s = refl
  handle-users events rd w r s = refl
  handle-users replication_jobs rd w r s = refl
  handle-users alerts_config rd w r s = ground arith
  handle-users snapshots rd w r s = ground arith
  handle-users snapshots_delete rd w r s = ground arith
  handle-users restore rd w r s = ground arith
  handle-users replicate rd w r s = ground arith
  handle-users policies rd w r s = ground arith
  handle-users keys rd w r s = ground arith
  handle-users keys_revoke rd w r s = ground arith
  handle-users alerts_test rd w r s = ground arith

  Ended-users :
      (page : Page) (rd : Readings) (r : Request B) (sys : System Conn C W)
      (o : Writer × System Conn C W)
      → Ended g lib page rd r sys o
      → o.1.server.users ≡ sys.server.users
  Ended-users page rd r sys o (over_limit off code same) = ap (λ s. s.users) same
  Ended-users page rd r sys o (no_token on bad code same) = ap (λ s. s.users) same
  Ended-users page rd r sys o (handled c r' on good carries hw hs) =
      ap (λ s. s.users) hs ∙ handle-users page rd fresh _ sys.server

  module _ (laws : CronLaws lib.cron) (files : Writer → Request B → Writer)
      (accept : Writer → Request B → Writer × Bool) where
    route_users :
        (route : Route) (rd : Readings) (r : Request B) (sys : System Conn C W)
        → (serve_route g lib files accept route rd fresh r sys).1.server.users ≡ sys.server.users
    unfolding serve_route
    route_users static rd r sys = refl
    route_users health rd r sys = refl
    route_users ws_events rd r sys = elim (Bool-cases (accept fresh r).1) [
      | inl on ↦ rw on refl
      | inr off ↦ rw off refl
    ]
    route_users login rd r sys = ap (λ s. s.users) (serve_login-kept g lib rd r sys)
    route_users (api page) rd r sys =
        Ended-users page rd r sys _ (serve_api-Ended g lib page rd r sys)

    step_users :
        {sys sys' : System Conn C W}
        → Step g lib laws files accept sys sys'
        → sys'.server.users ≡ sys.server.users
    unfolding serve register_node rpc_create_snapshot rpc_delete_snapshot start_stream
    step_users (request path rd r sys new) = route_users (route_of path) rd r sys
    step_users (register rd hostname address token sys) = ground arith
    step_users (create rd req sys) = ground arith
    step_users (delete id sys) = ground arith
    step_users (stream rd node_id sys) = ground arith
    step_users (begin_replication a t before after sys at) = refl
    step_users (end_replication a t sys running) = refl
    step_users (fire e p ts sys live) = refl
    step_users (sweep_limiters t u sys) = refl
    step_users (outside d w sys) = refl

    Reach-users :
        {sys sys' : System Conn C W}
        → Reach g lib laws files accept sys sys'
        → sys'.server.users ≡ sys.server.users
    Reach-users here = refl
    Reach-users (next r st) = step_users st ∙ Reach-users r

  -- the user that a login finds
  found_user :
      (users : UserStore) (name password : String) (user : User)
      → authenticate lib.bcrypt users name password ≡ ok user
      → lookup name users ≡ some user
  unfolding authenticate
  found_user users name password user h = elim (Option-cases (lookup name users)) [
    | inl missing ↦ absurd (ground arith)
    | inr (u, there) ↦ ground arith
  ]

  found-add :
      (users : UserStore) (salt : ℕ) (id username password role name : String) (user : User)
      → lookup name (add lib.bcrypt users salt id username password role).0 ≡ some user
      → ((name ≡ username) × (user.role ≡ role)) ⊎ (lookup name users ≡ some user)
  unfolding add
  found-add users salt id username password role name user h =
      elim (Result-cases (lib.bcrypt.generate_from_password salt password)) [
        | inr (e, refused) ↦ inr (ground arith)
        | inl (hash, made) ↦ ground (
          arith,
          lookup-insert username name
              (record { id = id; username = username; password_hash = hash; role = role }) users,
          eq_iff username name,
        )
      ]

  -- The two users, each with its role.
  abbrev pub Seeded : String → User → Type 0
  Seeded name user =
      ((name ≡ "admin") × (user.role ≡ "admin")) ⊎ ((name ≡ "operator") × (user.role ≡ "operator"))

  seeded_users-Seeded :
      (seeds : Seeds) (name : String) (user : User)
      → lookup name (seeded_users g lib seeds) ≡ some user
      → Seeded name user
  unfolding seeded_users lookup
  seeded_users-Seeded seeds name user h = elim (found-add _ _ _ _ _ _ name user h) [
    | inl operator ↦ inr operator
    | inr earlier ↦ elim (found-add _ _ _ _ _ _ name user earlier) [
      | inl admin ↦ inl admin
      | inr nobody ↦ absurd cc
    ]
  ]

  begin_users :
      (seeds : Seeds) (secret : String) (expiry : ℕ) (memory : ℕ → Job) (world : W) (conn : Conn)
      → (first_system g lib seeds secret expiry memory world conn).server.users
        ≡ seeded_users g lib seeds
  unfolding new_server
  begin_users seeds secret expiry memory world conn = refl

  -- In every state that the server reaches, only "admin" and "operator" can log in, with the role of
  -- the same name: no step adds a user or changes one.
  pub reachable_logins :
      (laws : CronLaws lib.cron) (files : Writer → Request B → Writer)
      (accept : Writer → Request B → Writer × Bool) (seeds : Seeds) (secret : String) (expiry : ℕ)
      (memory : ℕ → Job) (world : W) (sys sys' : System Conn C W) (name password : String)
      (user : User)
      → start_system g lib seeds secret expiry memory world ≡ ok sys
      → Reach g lib laws files accept sys sys'
      → authenticate lib.bcrypt sys'.server.users name password ≡ ok user
      → Seeded name user
  reachable_logins laws files accept seeds secret expiry memory world sys sys' name password user
        started reached passes =
      let (conn, begins) = start_system-first g lib seeds secret expiry memory world sys started in
      let same : sys'.server.users ≡ seeded_users g lib seeds =
        Reach-users laws files accept reached
        ∙ ap (λ x. x.server.users) begins
        ∙ begin_users seeds secret expiry memory world conn in
      seeded_users-Seeded seeds name user (
        subst (λ users. lookup name users ≡ some user) same
          (found_user sys'.server.users name password user passes))
