-- ===== src/Hub/Clients.antt =====
-- internal/hub/hub.go from one client's view: the others cannot slow it down or starve it.
use btrfs_snapah_pow.Base.{
  ℕ, ◌≤◌, ◌≡◌, refl, sym, ◌∙◌, ap, String, Bool, true, false, Option, none, some, List, [], ◌∷◌,
  nat_eq, length, if◌then◌else◌, Bool-cases, inl, inr, arith, length-append,
}
use mathlib.Core.Option
use mathlib.Core.Path.{subst}
use btrfs_snapah_pow.Hub.{
  Event, Hub, new, capacity, offered, event_at, broadcast, join, leave, queue_of, tail, receive,
  Step, join_step, leave_step, receive_step, broadcast_step, step, run,
}

module _ {P : Type 0} where
  -- What a step does to the queue of the client `c`, if it has one.
  abbrev pub own_step : ℕ → Step P → Option (List (Event P)) → Option (List (Event P))
  own_step c (join_step d) o = if nat_eq d c then some [] else o
  own_step c (leave_step d) o = if nat_eq d c then none else o
  own_step c (receive_step d) o = if nat_eq d c then Option.map tail o else o
  own_step c (broadcast_step now event_type payload) o =
      Option.map (offered (event_at now event_type payload)) o

  abbrev pub own_run : ℕ → List (Step P) → Option (List (Event P)) → Option (List (Event P))
  own_run c [] o = o
  own_run c (s ∷ steps) o = own_run c steps (own_step c s o)

  queue_of-leave :
      (c d : ℕ) (h : Hub P) → queue_of c (leave d h) ≡ (if nat_eq d c then none else queue_of c h)
  unfolding queue_of leave
  queue_of-leave c d [] = ground arith
  queue_of-leave c d (e ∷ h) = ground (arith, queue_of-leave c d h)

  queue_of-receive :
      (c d : ℕ) (h : Hub P)
      → queue_of c (receive d h)
        ≡ (if nat_eq d c then Option.map tail (queue_of c h) else queue_of c h)
  unfolding queue_of receive
  queue_of-receive c d [] = ground arith
  queue_of-receive c d (e ∷ h) = ground (arith, queue_of-receive c d h)

  queue_of-broadcast :
      (c now : ℕ) (event_type : String) (payload : P) (h : Hub P)
      → queue_of c (broadcast now event_type payload h)
        ≡ Option.map (offered (event_at now event_type payload)) (queue_of c h)
  unfolding queue_of broadcast
  queue_of-broadcast c now event_type payload [] = refl
  queue_of-broadcast c now event_type payload (e ∷ h) = elim (Bool-cases (nat_eq e.0 c)) [
    | inl same ↦ rw same refl
    | inr other ↦ rw other (queue_of-broadcast c now event_type payload h)
  ]

  queue_of-step :
      (c : ℕ) (s : Step P) (h : Hub P) → queue_of c (step s h) ≡ own_step c s (queue_of c h)
  unfolding step
  queue_of-step c (join_step d) h = unfold join queue_of in refl
  queue_of-step c (leave_step d) h = queue_of-leave c d h
  queue_of-step c (receive_step d) h = queue_of-receive c d h
  queue_of-step c (broadcast_step now event_type payload) h =
      queue_of-broadcast c now event_type payload h

  -- Over any run, the queue of a client is what its own joins, leaves and receives and all
  -- broadcasts make of it: no other client's queue, full or not, has a part in it.
  pub queue_of-run :
      (c : ℕ) (steps : List (Step P)) (h : Hub P)
      → queue_of c (run steps h) ≡ own_run c steps (queue_of c h)
  unfolding run
  queue_of-run c [] h = refl
  queue_of-run c (s ∷ steps) h =
      queue_of-run c steps (step s h) ∙ ap (own_run c steps) (queue_of-step c s h)

  -- a queue that is in the channel's bounds, if there is one
  abbrev pub InBounds : Option (List (Event P)) → Type 0
  InBounds none = Unit
  InBounds (some queue) = length queue ≤ capacity

  offered-bound :
      (evt : Event P) (queue : List (Event P))
      → length queue ≤ capacity
      → length (offered evt queue) ≤ capacity
  offered-bound evt queue h = ground (arith, length-append queue (evt ∷ []))

  either-InBounds :
      (b : Bool) (x y : Option (List (Event P)))
      → InBounds x
      → InBounds y
      → InBounds (if b then x else y)
  either-InBounds true x y hx hy = hx
  either-InBounds false x y hx hy = hy

  tail-InBounds : (o : Option (List (Event P))) → InBounds o → InBounds (Option.map tail o)
  tail-InBounds none h = tt
  tail-InBounds (some []) h = h
  tail-InBounds (some (e ∷ es)) h = omega arith

  offered-InBounds :
      (evt : Event P) (o : Option (List (Event P)))
      → InBounds o
      → InBounds (Option.map (offered evt) o)
  offered-InBounds evt none h = tt
  offered-InBounds evt (some q) h = offered-bound evt q h

  own_step-InBounds :
      (c : ℕ) (s : Step P) (o : Option (List (Event P))) → InBounds o → InBounds (own_step c s o)
  own_step-InBounds c (join_step d) o h = either-InBounds (nat_eq d c) (some []) o (omega arith) h
  own_step-InBounds c (leave_step d) o h = either-InBounds (nat_eq d c) none o tt h
  own_step-InBounds c (receive_step d) o h =
      either-InBounds (nat_eq d c) (Option.map tail o) o (tail-InBounds o h) h
  own_step-InBounds c (broadcast_step now event_type payload) o h = offered-InBounds _ o h

  own_run-InBounds :
      (c : ℕ) (steps : List (Step P)) (o : Option (List (Event P)))
      → InBounds o
      → InBounds (own_run c steps o)
  own_run-InBounds c [] o h = h
  own_run-InBounds c (s ∷ steps) o h =
      own_run-InBounds c steps (own_step c s o) (own_step-InBounds c s o h)

  -- In every state that a new hub reaches, no queue holds more events than the channel's capacity.
  pub run-InBounds : (c : ℕ) (steps : List (Step P)) → InBounds (queue_of c (run steps new))
  unfolding new queue_of
  run-InBounds c steps =
      subst InBounds (sym (queue_of-run c steps new)) (own_run-InBounds c steps none tt)
