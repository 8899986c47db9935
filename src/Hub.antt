-- ===== src/Hub.antt =====
-- internal/hub/hub.go. A `*client` is a number; its channel `send` is the queue of the events that
-- wait in it, the oldest first. Each operation is what the hub does under its lock, or one receive
-- of a client's writer.
pub mod Clients
pub mod Order
pub mod Connections
mod Examples
use btrfs_snapah_pow.Base.{
  ℕ, suc, String, Bool, true, false, not, ◌&&◌, Option, none, some, List, [], ◌∷◌, map, nat_eq, ltb,
  length, if◌then◌else◌,
}
use mathlib.Core.List

-- `P` is the payload, which the hub passes on unread.
pub record Event (P : Type 0) : Type 0 where
  pub event_type : String
  pub payload : P
  pub time : ℕ

-- The clients, no number twice, and their queues.
abbrev pub Hub : Type 0 → Type 0
Hub P = List (ℕ × List (Event P))

-- `make(chan Event, 32)`
abbrev pub capacity : ℕ
capacity = 32

-- What can happen to a hub, one step at a time.
pub data Step (P : Type 0) : Type 0 where
  join_step : ℕ → Step P
  leave_step : ℕ → Step P
  receive_step : ℕ → Step P
  broadcast_step : ℕ → String → P → Step P

module _ {P : Type 0} where
  unfoldable pub new : Hub P
  new = []

  -- `select { case c.send <- evt: default: }`
  abbrev pub offered : Event P → List (Event P) → List (Event P)
  offered evt queue = if ltb (length queue) capacity then List.◌++◌ queue (evt ∷ []) else queue

  abbrev pub event_at : ℕ → String → P → Event P
  event_at now event_type payload = record {
    event_type = event_type;
    payload = payload;
    time = now;
  }

  -- `Broadcast`, at the time `now`
  unfoldable pub broadcast : ℕ → String → P → Hub P → Hub P
  broadcast now event_type payload h =
      map (λ c. (c.0, offered (event_at now event_type payload) c.1)) h

  -- The two sections of `ServeWS` under the lock: a new client, and its end.
  unfoldable pub join : ℕ → Hub P → Hub P
  join c h = (c, []) ∷ h

  unfoldable pub leave : ℕ → Hub P → Hub P
  leave c [] = []
  leave c (d ∷ h) = let rest = leave c h in if nat_eq d.0 c then rest else d ∷ rest

  unfoldable pub queue_of : ℕ → Hub P → Option (List (Event P))
  queue_of c [] = none
  queue_of c (d ∷ h) = if nat_eq d.0 c then some d.1 else queue_of c h

  abbrev pub tail : List (Event P) → List (Event P)
  tail [] = []
  tail (e ∷ es) = es

  -- `evt := <-c.send` in the client's writer
  unfoldable pub receive : ℕ → Hub P → Hub P
  receive c [] = []
  receive c (d ∷ h) = if nat_eq d.0 c then (d.0, tail d.1) ∷ h else d ∷ receive c h

  unfoldable pub client_count : Hub P → ℕ
  client_count h = length h

  unfoldable pub step : Step P → Hub P → Hub P
  step (join_step c) h = join c h
  step (leave_step c) h = leave c h
  step (receive_step c) h = receive c h
  step (broadcast_step now event_type payload) h = broadcast now event_type payload h

  unfoldable pub run : List (Step P) → Hub P → Hub P
  run [] h = h
  run (s ∷ steps) h = run steps (step s h)
