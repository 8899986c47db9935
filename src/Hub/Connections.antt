-- ===== src/Hub/Connections.antt =====
-- One connection of `ServeWS` of internal/hub/hub.go: the loop that reads, the writer and the ping,
-- which share a context. What a call of the connection answers is a step's choice; `conn.Read` fails
-- when the context is done.
pub mod Ends
pub mod Winding
mod Examples
use btrfs_snapah_pow.Base.{
  ℕ, ◌≡◌, String, Bool, true, false, Option, none, some, List, [], ◌∷◌, Result, ok, err,
}
use mathlib.Core.List
use btrfs_snapah_pow.Hub
use btrfs_snapah_pow.Hub.{Event, Hub, broadcast, join, leave, receive, queue_of}

-- Where the goroutine of `ServeWS` itself is: in its loop; behind it; behind the deletion of the
-- client; or gone, with the connection closed and the deferred `cancel` run.
pub data Phase : Type 0 where
  reading broken removed returned : Phase

-- `cancelled` is the end of the context, `writing` and `pinging` say which of the two goroutines have
-- not returned, and `written` is what has gone out to the client.
pub record Connection (P : Type 0) : Type 0 where
  pub hub : Hub P
  pub cancelled : Bool
  pub phase : Phase
  pub writing : Bool
  pub pinging : Bool
  pub written : List (Event P)

module _ {P : Type 0} (c : ℕ) where
  -- a connection that the library has accepted
  unfoldable pub accepted : Hub P → Connection P
  accepted h = record {
    hub = join c h;
    cancelled = false;
    phase = reading;
    writing = true;
    pinging = true;
    written = [];
  }

  -- `break`
  abbrev pub broken_off : Connection P → Connection P
  broken_off s = record s { phase = broken }

  -- `delete(h.clients, c)`, under the lock
  abbrev pub deleted : Connection P → Connection P
  deleted s = record s { hub = leave c s.hub; phase = removed }

  -- `conn.Close`, the return and the deferred `cancel`
  abbrev pub closed : Connection P → Connection P
  closed s = record s { cancelled = true; phase = returned }

  pub data Step : Connection P → Connection P → Type 0 where
    read_message : {s : Connection P} → s.phase ≡ reading → s.cancelled ≡ false → Step s s
    read_failed : {s : Connection P} → s.phase ≡ reading → Step s (broken_off s)
    delete_client : {s : Connection P} → s.phase ≡ broken → Step s (deleted s)
    close : {s : Connection P} → s.phase ≡ removed → Step s (closed s)
    ping_answered : {s : Connection P} → s.pinging ≡ true → Step s s
    ping_failed :
        {s : Connection P}
        → s.pinging ≡ true
        → Step s (record s { cancelled = true; pinging = false })
    ping_done :
        {s : Connection P}
        → s.pinging ≡ true
        → s.cancelled ≡ true
        → Step s (record s { pinging = false })
    write_event :
        {s : Connection P} (e : Event P) (queue : List (Event P))
        → s.writing ≡ true
        → queue_of c s.hub ≡ some (e ∷ queue)
        → Step s (record s { hub = receive c s.hub; written = List.◌++◌ s.written (e ∷ []) })
    write_failed :
        {s : Connection P} (e : Event P) (queue : List (Event P))
        → s.writing ≡ true
        → queue_of c s.hub ≡ some (e ∷ queue)
        → Step s (record s { hub = receive c s.hub; cancelled = true; writing = false })
    write_done :
        {s : Connection P}
        → s.writing ≡ true
        → s.cancelled ≡ true
        → Step s (record s { writing = false })
    -- what the rest of the program does
    broadcast_event :
        {s : Connection P} (now : ℕ) (event_type : String) (payload : P)
        → Step s (record s { hub = broadcast now event_type payload s.hub })

  pub data Reach (s : Connection P) : Connection P → Type 0 where
    here : Reach s s
    next : {s' s'' : Connection P} → Reach s s' → Step s' s'' → Reach s s''
