-- ===== src/Hub/Connections/Examples.antt =====
-- A connection that gets an event and then does not answer a ping.
use btrfs_snapah_pow.Base.{ℕ, ◌≤◌, ◌⊎◌, refl, inr, true, false, [], ◌∷◌}
use btrfs_snapah_pow.Hub.{Hub, event_at, broadcast, join, receive, queue_of}
use btrfs_snapah_pow.Hub.Connections.{
  Connection, accepted, broken_off, broadcast_event, write_event, ping_failed, Reach, here, next,
}
use btrfs_snapah_pow.Hub.Connections.Ends.{Tied, reachable_Tied}
use btrfs_snapah_pow.Hub.Connections.Winding.{
  Finished, Winds, read_over, still, further, Stopping-finishes,
}

abbrev others : Hub ℕ
others = (2, []) ∷ []

abbrev told : Connection ℕ
told = record (accepted 1 others) { hub = broadcast 10 "a" 7 (accepted 1 others).hub }

abbrev written : Connection ℕ
written = record told { hub = receive 1 told.hub; written = event_at 10 "a" 7 ∷ [] }

abbrev unanswered : Connection ℕ
unanswered = record written { cancelled = true; pinging = false }

reaches : Reach 1 (accepted 1 others) unanswered
unfolding accepted join broadcast queue_of
reaches =
    next
      (next (next here (broadcast_event 10 "a" 7)) (write_event (event_at 10 "a" 7) [] refl refl))
      (ping_failed refl)

reachable_Tied_example : Tied 1 unanswered
reachable_Tied_example = reachable_Tied 1 others unanswered reaches

-- the loop, whose read fails since the context is done
abbrev broke : Connection ℕ
broke = broken_off 1 unanswered

Stopping-finishes_example : (1 ≤ 5) × (Finished 1 broke ⊎ ((t' : Connection ℕ) × Winds 1 broke t'))
unfolding accepted
Stopping-finishes_example =
    Stopping-finishes 1 others unanswered broke 1 reaches (inr refl)
      (further still (read_over refl refl))
