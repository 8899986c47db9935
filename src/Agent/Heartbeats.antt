-- ===== src/Agent/Heartbeats.antt =====
-- The heartbeats of the agent of cmd/agent/main.go.
use btrfs_snapah_pow.Base.{
  ℕ, suc, ◌≡◌, refl, ap, String, Bool, Option, List, [], ◌∷◌, Result, ok, length,
}
use btrfs_snapah_pow.Alerts.{Env}
use btrfs_snapah_pow.Config.{Config}
use btrfs_snapah_pow.Server.Types.{PbNode}
use btrfs_snapah_pow.Agent.{
  Transport, Client, Event, tick, signal, or_unnamed, server_addr, token, loop, run,
}

-- the ticks before the signal
abbrev pub ticks : List Event → ℕ
ticks [] = 0
ticks (signal ∷ events) = 0
ticks (tick ∷ events) = suc (ticks events)

module _ {N T W : Type 0} (client : Client N T W) where
  loop-ticks :
      (conn : N) (id : String) (events : List Event) (w : W)
      → length (loop client conn id events w).1 ≡ ticks events
  unfolding loop
  loop-ticks conn id [] w = refl
  loop-ticks conn id (signal ∷ events) w = refl
  loop-ticks conn id (tick ∷ events) w =
      ap suc (loop-ticks conn id events (client.list_snapshots conn id w).0)

  -- An agent whose registration succeeds sends one heartbeat for each tick until it is stopped, also
  -- after heartbeats that fail.
  pub run-ticks :
      (env : Env) (hostname : Result String) (cfg : Option Config) (creds : Transport T)
      (events : List Event) (w : W) (conn : N) (node : PbNode)
      → client.new_client (server_addr env cfg) creds ≡ ok conn
      → (client.register_node conn (or_unnamed hostname) (server_addr env cfg) (token env cfg) w).1
        ≡ ok node
      → (answers : List Bool) × ((run client env hostname cfg creds events w).1 ≡ ok answers)
        × (length answers ≡ ticks events)
  unfolding run
  run-ticks env hostname cfg creds events w conn node dialled known =
      let w' =
        (client.register_node conn (or_unnamed hostname) (server_addr env cfg) (token env cfg)
          w).0 in
      (
        (loop client conn node.id events w').1,
        rw (dialled, known) refl,
        loop-ticks conn node.id events w',
      )
