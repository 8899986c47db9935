-- ===== src/Server/Examples.antt =====
-- The server at concrete inputs, over the stand-ins of Demo.
use btrfs_snapah_pow.Base.{
  ℕ, ◌≡◌, refl, String, ◌++◌, Bool, true, none, some, [], ok, lookup, insert, arith, eq_iff,
}
use btrfs_snapah_pow.Base.Int.{minute}
use btrfs_snapah_pow.Http.{Writer, Request, fresh, status, set_header}
use btrfs_snapah_pow.Auth.{new_manager, claims_for, generate}
use btrfs_snapah_pow.Auth.Demo.{demo_laws, demo_sign, is_demo}
use btrfs_snapah_pow.Auth.Users.{User, add, authenticate, new_user}
use btrfs_snapah_pow.RateLimit
use btrfs_snapah_pow.RateLimit.{allow, client_key}
use btrfs_snapah_pow.Auth.Identity.{Carries}
use btrfs_snapah_pow.Replication
use btrfs_snapah_pow.Scheduler.{new_scheduler}
use btrfs_snapah_pow.Scheduler.Listed
use btrfs_snapah_pow.Scheduler.Listed.{Entries, toy_six}
use btrfs_snapah_pow.Storage.Db.{new_db, create_node, create_policy}
use btrfs_snapah_pow.Storage.Memory.{Memory, memory, empty_memory}
use btrfs_snapah_pow.Server.Types.{Readings}
use btrfs_snapah_pow.Server.Answers.{json_resp}
use btrfs_snapah_pow.Server.Grpc.{register_node, rpc_create_snapshot, rpc_delete_snapshot}
use btrfs_snapah_pow.Server.Admin.{handle_policies, scheduled}
use btrfs_snapah_pow.Server.Routes.{
  nodes, snapshots, restore, System, handle, guarded, serve_api, serve_login, serve,
}
use btrfs_snapah_pow.Server.Start.{seeded_users, new_server, start_system, start_main}
use btrfs_snapah_pow.Server.Access.{Ended, serve_api-Ended, Allowed, serve-Allowed}
use btrfs_snapah_pow.Server.Runs.{Reach, here, next, request, register, create, sweep_limiters}
use btrfs_snapah_pow.Server.Soundness.{Sound, reachable_Sound}
use btrfs_snapah_pow.Server.Snapshots.{
  Deleted, rpc_delete_snapshot-Deleted, Taken, rpc_create_snapshot-Taken,
}
use btrfs_snapah_pow.Server.Sessions.{login_answer, login_session, default_passwords}
use btrfs_snapah_pow.Server.Policies.{unscheduled_created}
use btrfs_snapah_pow.Server.Accounts.{Seeded, reachable_logins}
use btrfs_snapah_pow.Server.Expiry.{unset_expiry_refused}
use btrfs_snapah_pow.Config.{load, prepared, with_defaults}
use btrfs_snapah_pow.Config.Demo.{toy_viper, toy_laws, nothing_set}
use btrfs_snapah_pow.Server.Demo.{lib, readings, sent, server, seeds, no_job, nightly, wanted}

abbrev no_files : Writer → Request String → Writer
no_files w r = w

abbrev any_client : Writer → Request String → Writer × Bool
any_client w r = (w, true)

abbrev system : System Memory Entries ℕ
system = record {
  login_limiter = RateLimit.new 10 minute;
  api_limiter = RateLimit.new 200 minute;
  server = server;
}

serve-Allowed_example :
    Allowed memory lib "/api/snapshots/delete" readings
      (sent "POST" "s1")
      server
      (serve memory lib no_files any_client "/api/snapshots/delete" readings fresh
        (sent "POST" "s1")
        system).1.server
serve-Allowed_example =
    serve-Allowed memory lib no_files any_client "/api/snapshots/delete" readings (sent "POST" "s1")
      system

serve_api-Ended_example :
    Ended memory lib restore readings
      (sent "POST" "s1")
      system
      (serve_api memory lib restore readings fresh (sent "POST" "s1") system)
serve_api-Ended_example = serve_api-Ended memory lib restore readings (sent "POST" "s1") system

rpc_delete_snapshot-Deleted_example :
    Deleted memory lib "s1" server (rpc_delete_snapshot memory lib "s1" server)
rpc_delete_snapshot-Deleted_example = rpc_delete_snapshot-Deleted memory lib "s1" server

rpc_create_snapshot-Taken_example :
    Taken memory lib readings wanted server (rpc_create_snapshot memory lib readings wanted server)
rpc_create_snapshot-Taken_example = rpc_create_snapshot-Taken memory lib readings wanted server

abbrev ana : User
ana = record { id = "u1"; username = "ana"; password_hash = "pw"; role = "operator" }

login_session_example :
    let given = set_header "Authorization" ("Bearer " ++ "t") (sent "GET" "") in
    ((serve_login memory lib readings fresh (sent "POST" "pw") system).0
      ≡ json_resp (login_answer memory lib "t" ana) fresh)
    × ((serve_login memory lib readings fresh (sent "POST" "pw") system).1.server ≡ server)
    × (seen : Request String) × Carries "u1" "ana" "operator" given seen
    × ((serve_api memory lib snapshots readings fresh given system).0
        ≡ (handle memory lib snapshots readings fresh seen server).0)
    × ((serve_api memory lib snapshots readings fresh given system).1.server
        ≡ (handle memory lib snapshots readings fresh seen server).1)
unfolding generate claims_for demo_sign is_demo authenticate lookup insert allow client_key
    RateLimit.new
login_session_example =
    login_session memory lib demo_laws readings readings (sent "POST" "pw") (sent "GET" "") system
      system (record { username = "ana"; password = "pw" }) ana "t" snapshots refl refl refl refl
      refl refl (omega arith) refl

default_passwords_run :
    (authenticate lib.bcrypt (seeded_users memory lib seeds) "operator" "operator123"
      ≡ ok (new_user lib.bcrypt "u2" "operator" "operator123" "operator"))
    × (authenticate lib.bcrypt (seeded_users memory lib seeds) "admin" "admin123"
        ≡ ok (new_user lib.bcrypt "u0" "admin" "admin123" "admin"))
default_passwords_run =
    default_passwords memory lib seeds "admin123" "operator123"
      (λ salt password hash made. ground (arith, eq_iff hash password)) refl refl

abbrev as_admin : Request String
as_admin = set_header "X-User-Role" "admin" (sent "POST" "")

unscheduled_created_example :
    let (w', s') = handle_policies memory lib readings fresh as_admin server in
    (status w' ≡ 201)
    × (s'.repl.db ≡ (create_policy memory (record nightly { id = "r1" }) server.repl.db).0)
    × (s'.scheduler.entry_ids ≡ [])
    × (lookup "r1" s'.scheduler.policies ≡ some (scheduled (record nightly { id = "r1" })))
unfolding create_policy insert lookup
unscheduled_created_example =
    unscheduled_created memory lib readings as_admin server nightly toy_six refl refl refl refl refl
      refl

abbrev started : System Memory Entries ℕ
started = record system { server = new_server memory lib seeds "k" 24 empty_memory no_job 0 }

starts : start_system memory lib seeds "k" 24 no_job 0 ≡ ok started
unfolding start_system new_db
starts = refl

-- a request, a call and a sweep
abbrev requested : System Memory Entries ℕ
requested =
    (serve memory lib no_files any_client "/api/policies" readings fresh (sent "POST" "") started).1

abbrev created : System Memory Entries ℕ
created = record requested {
  server = (rpc_create_snapshot memory lib readings wanted requested.server).0;
}

abbrev swept : System Memory Entries ℕ
swept = record created {
  login_limiter = RateLimit.sweep 9 created.login_limiter;
  api_limiter = RateLimit.sweep 9 created.api_limiter;
}

reaches : Reach memory lib Listed.toy_laws no_files any_client started swept
unfolding new_server lookup new_scheduler Replication.new_manager
reaches =
    next
      (next
        (next here (
          request "/api/policies" readings (sent "POST" "") started
            (refl, λ id found. let clash : none ≡ some 3 = found in absurd cc)))
        (create readings wanted requested))
      (sweep_limiters 9 9 created)

reachable_Sound_example : Sound memory lib Listed.toy_laws no_files any_client swept
reachable_Sound_example =
    reachable_Sound memory lib Listed.toy_laws no_files any_client seeds "k" 24 no_job 0 started
      swept starts reaches

abbrev registered : System Memory Entries ℕ
registered = record started {
  server = (register_node memory lib readings "nas" "n1:9090" "" started.server).0;
}

reachable_logins_example :
    Seeded memory lib "operator" (record {
      id = "u2";
      username = "operator";
      password_hash = "operator123";
      role = "operator";
    })
unfolding new_server seeded_users add authenticate insert lookup register_node create_node
reachable_logins_example =
    reachable_logins memory lib Listed.toy_laws no_files any_client seeds "k" 24 no_job 0 started
      registered "operator" "operator123"
      (record {
        id = "u2";
        username = "operator";
        password_hash = "operator123";
        role = "operator";
      })
      starts (next here (register readings "nas" "n1:9090" "" started)) refl

-- a day after the epoch, as the stand-in for the JWT library signs it
abbrev at_login : Readings
at_login = record readings { now = 86400000000005; token_time = 86400000000005 }

abbrev unset : System Memory Entries ℕ
unset = record system { server = new_server memory lib seeds "k" 0 empty_memory no_job 0 }

unset_expiry_refused_example :
    let (w', s') =
      guarded memory lib nodes at_login fresh
        (set_header "Authorization" ("Bearer " ++ "t") (sent "GET" ""))
        unset.server in
    (status w' ≡ 401) × (s' ≡ unset.server)
unfolding start_main start_system new_db load toy_laws new_server new_manager generate claims_for
    demo_sign is_demo prepared with_defaults
unset_expiry_refused_example =
    unset_expiry_refused memory lib toy_viper toy_laws demo_laws nothing_set seeds no_job 0 unset
      at_login at_login "u1" "ana" "operator" "t" nodes (sent "GET" "") refl refl refl (omega arith)
      refl (omega arith)
