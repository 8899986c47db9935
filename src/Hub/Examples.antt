-- ===== src/Hub/Examples.antt =====
-- Two clients of the hub, of which one reads.
use btrfs_snapah_pow.Base.{ℕ, ◌≡◌, refl, some, List, [], ◌∷◌, arith}
use mathlib.Core.List
use btrfs_snapah_pow.Hub.{
  Hub, new, event_at, queue_of, join, client_count, Step, join_step, leave_step, receive_step,
  broadcast_step, step, run,
}
use btrfs_snapah_pow.Hub.Clients.{queue_of-run, InBounds, run-InBounds}
use btrfs_snapah_pow.Hub.Order.{Within, broadcasts, taken, left, run-Within, run_lossless}

abbrev two : Hub ℕ
two = (1, []) ∷ (2, event_at 5 "hello" 0 ∷ []) ∷ []

abbrev steps : List (Step ℕ)
steps =
    broadcast_step 10 "a" 1
    ∷ receive_step 2
    ∷ leave_step 1
    ∷ broadcast_step 20 "b" 2
    ∷ receive_step 2
    ∷ []

two_joined : client_count (run (join_step 2 ∷ join_step 1 ∷ []) (new {P = ℕ})) ≡ 2
unfolding run step join new client_count
two_joined = refl

queue_of-run_example : queue_of 2 (run steps two) ≡ some (event_at 20 "b" 2 ∷ [])
unfolding queue_of
queue_of-run_example = queue_of-run 2 steps two

run-InBounds_run :
    InBounds (queue_of 1 (run (join_step 1 ∷ broadcast_step 10 "a" 1 ∷ []) (new {P = ℕ})))
run-InBounds_run = run-InBounds 1 (join_step 1 ∷ broadcast_step 10 "a" 1 ∷ [])

run-Within_example :
    (queue_of 2 (run steps two) ≡ some (event_at 20 "b" 2 ∷ []))
    × Within
        (event_at 5 "hello" 0 ∷ event_at 10 "a" 1 ∷ event_at 20 "b" 2 ∷ [])
        (event_at 5 "hello" 0 ∷ broadcasts steps)
unfolding queue_of
run-Within_example = run-Within 2 steps two (event_at 5 "hello" 0 ∷ []) refl (refl, tt)

run_lossless_example :
    (queue_of 2 (run steps two) ≡ some (event_at 20 "b" 2 ∷ []))
    × (List.◌++◌
          (taken 2 steps (event_at 5 "hello" 0 ∷ []))
          (left 2 steps (event_at 5 "hello" 0 ∷ []))
        ≡ event_at 5 "hello" 0 ∷ event_at 10 "a" 1 ∷ event_at 20 "b" 2 ∷ [])
unfolding queue_of
run_lossless_example =
    run_lossless 2 steps two (event_at 5 "hello" 0 ∷ []) refl (refl, tt) (omega arith)
