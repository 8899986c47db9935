-- ===== src/Server/Soundness.antt =====
-- What holds in every state that the server of cmd/server/main.go reaches.
use btrfs_snapah_pow.Base.{
  ℕ, ◌≡◌, ◌≢◌, refl, ◌⊎◌, inl, inr, sym, ap, ◌∙◌, String, Bool, none, some, ok, lookup, Bool-cases,
}
use mathlib.Core.Path.{subst}
use btrfs_snapah_pow.Http.{Writer, Request, fresh}
use btrfs_snapah_pow.Replication.{Job, Times, set, start, sent_on}
use btrfs_snapah_pow.Replication
use btrfs_snapah_pow.Replication.Keys.{Keyed, Begun, start-Keyed, sent_on-Keyed, set-Keyed}
use btrfs_snapah_pow.Scheduler.{Scheduler}
use btrfs_snapah_pow.Scheduler.Policies.{CronLaws, InStep, add_policy-InStep, new_scheduler-InStep}
use btrfs_snapah_pow.Storage.Gorm.{Gorm}
use btrfs_snapah_pow.Server.Types.{Libraries, Readings, Server}
use btrfs_snapah_pow.Server.Routes.{
  Page, Route, static, health, ws_events, login, api, route_of, System, serve_route, serve,
}
use btrfs_snapah_pow.Server.Begins.{first_system, start_system-first}
use btrfs_snapah_pow.Server.Start.{Seeds, new_server, start_system}
use btrfs_snapah_pow.Server.Access.{
  Ended, over_limit, no_token, handled, serve_api-Ended, serve_login-kept,
}
use btrfs_snapah_pow.Server.Steps.{
  Kept, Scheduled, handle_parts, create_snapshot-Kept, delete_snapshot-Kept, register_node-Kept,
  start_stream-Kept,
}
use btrfs_snapah_pow.Server.Runs.{
  IsNew, Step, Reach, request, register, create, delete, stream, begin_replication, end_replication,
  fire, sweep_limiters, outside, here, next,
}

module _ (g : Gorm) {C W B : Type 0} (lib : Libraries C W B) (laws : CronLaws lib.cron)
    (files : Writer → Request B → Writer) (accept : Writer → Request B → Writer × Bool) where
  open g use {Conn}

  abbrev State : Type 0
  State = System Conn C W

  abbrev with_server : Server Conn C W → State → State
  with_server s sys = record sys { server = s }

  -- The scheduler is in step with the cron, and every job of the map stands under its own id and has
  -- begun.
  pub record Sound (sys : State) : Type 0 where
    pub in_step : InStep lib.cron laws sys.server.scheduler
    pub keyed : Keyed g sys.server.repl

  abbrev Parts : Readings → Server Conn C W → Server Conn C W → Type 0
  Parts rd s s' =
      Scheduled g lib rd s.scheduler s'.scheduler
      × (s'.repl.jobs ≡ s.repl.jobs)
      × ((s'.repl.memory ≡ s.repl.memory)
          ⊎ ((job : Job) × (s'.repl.memory ≡ set rd.address job s.repl.memory)))

  same-Parts : (rd : Readings) (s s' : Server Conn C W) → s' ≡ s → Parts rd s s'
  same-Parts rd s s' e = subst (Parts rd s) (sym e) (inl refl, refl, inl refl)

  Ended-Parts :
      (page : Page) (rd : Readings) (r : Request B) (sys : State) (o : Writer × State)
      → Ended g lib page rd r sys o
      → Parts rd sys.server o.1.server
  Ended-Parts page rd r sys o (over_limit off code same) = same-Parts rd sys.server o.1.server same
  Ended-Parts page rd r sys o (no_token on bad code same) = same-Parts rd sys.server o.1.server same
  Ended-Parts page rd r sys o (handled c r' on good carries hw hs) =
      subst (Parts rd sys.server) (sym hs) (handle_parts g lib page rd fresh _ sys.server)

  route-Parts :
      (route : Route) (rd : Readings) (r : Request B) (sys : State)
      → Parts rd sys.server (serve_route g lib files accept route rd fresh r sys).1.server
  unfolding serve_route
  route-Parts static rd r sys = (inl refl, refl, inl refl)
  route-Parts health rd r sys = (inl refl, refl, inl refl)
  route-Parts ws_events rd r sys = elim (Bool-cases (accept fresh r).1) [
    | inl on ↦ rw on (inl refl, refl, inl refl)
    | inr off ↦ rw off (inl refl, refl, inl refl)
  ]
  route-Parts login rd r sys = same-Parts rd sys.server _ (serve_login-kept g lib rd r sys)
  route-Parts (api page) rd r sys =
      Ended-Parts page rd r sys _ (serve_api-Ended g lib page rd r sys)

  Scheduled-InStep :
      (rd : Readings) (s s' : Scheduler C)
      → lookup rd.id s.entry_ids ≡ none
      → Scheduled g lib rd s s'
      → InStep lib.cron laws s
      → InStep lib.cron laws s'
  Scheduled-InStep rd s s' new (inl e) h = subst (InStep lib.cron laws) (sym e) h
  Scheduled-InStep rd s s' new (inr (p, key, e)) h =
      subst (InStep lib.cron laws) (sym e)
        (add_policy-InStep lib.cron laws p s h (ap (λ k. lookup k s.entry_ids) key ∙ new))

  same_jobs_Keyed :
      (m m' : Replication.Manager Conn W)
      → m'.jobs ≡ m.jobs
      → m'.memory ≡ m.memory
      → Keyed g m
      → Keyed g m'
  same_jobs_Keyed m m' jobs memory h = record {
    each = λ id a found.
        subst (λ f. ((f a).id ≡ id) × Begun (f a)) (sym memory)
          (h.each id a (ap (lookup id) (sym jobs) ∙ found));
  }

  stored_Keyed :
      (a : ℕ) (m m' : Replication.Manager Conn W)
      → ((id : String) → lookup id m.jobs ≢ some a)
      → m'.jobs ≡ m.jobs
      → (m'.memory ≡ m.memory) ⊎ ((job : Job) × (m'.memory ≡ set a job m.memory))
      → Keyed g m
      → Keyed g m'
  stored_Keyed a m m' free jobs (inl same) h = same_jobs_Keyed m m' jobs same h
  stored_Keyed a m m' free jobs (inr (job, stored)) h =
      same_jobs_Keyed (record m { memory = set a job m.memory }) m' jobs stored
        (set-Keyed g a job m free h)

  Parts-Sound :
      (rd : Readings) (sys sys' : State)
      → IsNew g lib laws files accept rd sys.server
      → Parts rd sys.server sys'.server
      → Sound sys
      → Sound sys'
  Parts-Sound rd sys sys' (id_new, address_new) (scheduler, jobs, memory) h = record {
    in_step =
        Scheduled-InStep rd sys.server.scheduler sys'.server.scheduler id_new scheduler h.in_step;
    keyed =
        stored_Keyed rd.address sys.server.repl sys'.server.repl address_new jobs memory h.keyed;
  }

  Kept-Sound :
      (sys : State) (s' : Server Conn C W)
      → Kept g lib sys.server s'
      → Sound sys
      → Sound (with_server s' sys)
  Kept-Sound sys s' (scheduler, jobs, memory) h = record {
    in_step = subst (InStep lib.cron laws) (sym scheduler) h.in_step;
    keyed = same_jobs_Keyed sys.server.repl s'.repl jobs memory h.keyed;
  }

  step_Sound : {sys sys' : State} → Step g lib laws files accept sys sys' → Sound sys → Sound sys'
  unfolding serve
  step_Sound (request path rd r sys new) h =
      Parts-Sound rd sys _ new (route-Parts (route_of path) rd r sys) h
  step_Sound (register rd hostname address token sys) h =
      Kept-Sound sys _ (register_node-Kept g lib rd hostname address token sys.server) h
  step_Sound (create rd req sys) h =
      Kept-Sound sys _ (create_snapshot-Kept g lib rd req sys.server) h
  step_Sound (delete id sys) h = Kept-Sound sys _ (delete_snapshot-Kept g lib id sys.server) h
  step_Sound (stream rd node_id sys) h =
      Kept-Sound sys _ (start_stream-Kept g lib rd node_id sys.server) h
  step_Sound (begin_replication a t before after sys at) h = record {
    in_step = h.in_step;
    keyed = start-Keyed g a t sys.server.repl h.keyed;
  }
  step_Sound (end_replication a t sys running) h = record {
    in_step = h.in_step;
    keyed = sent_on-Keyed g lib.exec lib.target a t sys.server.repl _ h.keyed;
  }
  step_Sound (fire e p ts sys live) h = Kept-Sound sys _ (refl, refl, refl) h
  step_Sound (sweep_limiters t u sys) h = record { in_step = h.in_step; keyed = h.keyed }
  step_Sound (outside d w sys) h = Kept-Sound sys _ (refl, refl, refl) h

  Reach-Sound : {sys sys' : State} → Reach g lib laws files accept sys sys' → Sound sys → Sound sys'
  Reach-Sound here h = h
  Reach-Sound (next r st) h = step_Sound st (Reach-Sound r h)

  first_system-Sound :
      (seeds : Seeds) (jwt_secret : String) (token_expiry : ℕ) (memory : ℕ → Job) (world : W)
      (conn : Conn)
      → Sound (first_system g lib seeds jwt_secret token_expiry memory world conn)
  unfolding new_server Replication.new_manager lookup
  first_system-Sound seeds jwt_secret token_expiry memory world conn = record {
    in_step = new_scheduler-InStep lib.cron laws;
    keyed = record { each = λ id a found. let clash : none ≡ some a = found in absurd cc };
  }

  -- In every state that the server reaches from its start, by any steps in any order, the cron and
  -- the scheduler's maps agree on which policies run, and every registered replication stands under
  -- its own id and is running, done or failed. The ids of requests are new ones.
  pub reachable_Sound :
      (seeds : Seeds) (jwt_secret : String) (token_expiry : ℕ) (memory : ℕ → Job) (world : W)
      (sys sys' : State)
      → start_system g lib seeds jwt_secret token_expiry memory world ≡ ok sys
      → Reach g lib laws files accept sys sys'
      → Sound sys'
  reachable_Sound seeds jwt_secret token_expiry memory world sys sys' started r =
      let (conn, begins) =
        start_system-first g lib seeds jwt_secret token_expiry memory world sys started in
      Reach-Sound r (
        subst Sound (sym begins)
          (first_system-Sound seeds jwt_secret token_expiry memory world conn))
