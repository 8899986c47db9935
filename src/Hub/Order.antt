-- ===== src/Hub/Order.antt =====
-- Which of the broadcasts of internal/hub/hub.go a client is sent, and in which order.
use btrfs_snapah_pow.Base.{
  ℕ, ◌+◌, ◌≤◌, ◌≡◌, refl, sym, ◌∙◌, ap, ◌⊎◌, inl, inr, true, false, some, List, [], ◌∷◌, nat_eq,
  ltb, length, if◌then◌else◌, Bool-cases, arith, length-append,
}
use mathlib.Core.List
use mathlib.Core.Path.{subst}
use btrfs_snapah_pow.Hub.{
  Event, Hub, capacity, offered, event_at, queue_of, tail, Step, join_step, leave_step,
  receive_step, broadcast_step, run,
}
use btrfs_snapah_pow.Hub.Clients.{own_run, queue_of-run}

module _ {P : Type 0} where
  -- `xs` is `ys` less some of its entries.
  abbrev pub Within : List (Event P) → List (Event P) → Type 0
  Within [] ys = Unit
  Within (x ∷ xs) [] = ⊥
  Within (x ∷ xs) (y ∷ ys) = ((x ≡ y) × Within xs ys) ⊎ Within (x ∷ xs) ys

  -- the events that a run broadcasts
  abbrev pub broadcasts : List (Step P) → List (Event P)
  broadcasts [] = []
  broadcasts (broadcast_step now event_type payload ∷ steps) =
      event_at now event_type payload ∷ broadcasts steps
  broadcasts (_ ∷ steps) = broadcasts steps

  -- Neither a start nor an end of the client `c` is among the steps.
  abbrev pub Stays : ℕ → List (Step P) → Type 0
  Stays c [] = Unit
  Stays c (join_step d ∷ steps) = (nat_eq d c ≡ false) × Stays c steps
  Stays c (leave_step d ∷ steps) = (nat_eq d c ≡ false) × Stays c steps
  Stays c (_ ∷ steps) = Stays c steps

  abbrev heads : List (Event P) → List (Event P)
  heads [] = []
  heads (e ∷ es) = e ∷ []

  -- What the writer of `c` takes off its queue during the steps, in order: the queue is `q` before.
  abbrev pub taken : ℕ → List (Step P) → List (Event P) → List (Event P)
  taken c [] q = []
  taken c (receive_step d ∷ steps) q =
      let rest = taken c steps (tail q) in
      let same = taken c steps q in if nat_eq d c then List.◌++◌ (heads q) rest else same
  taken c (broadcast_step now event_type payload ∷ steps) q =
      taken c steps (offered (event_at now event_type payload) q)
  taken c (_ ∷ steps) q = taken c steps q

  -- and what is left on it
  abbrev pub left : ℕ → List (Step P) → List (Event P) → List (Event P)
  left c [] q = q
  left c (receive_step d ∷ steps) q =
      let rest = left c steps (tail q) in
      let same = left c steps q in if nat_eq d c then rest else same
  left c (broadcast_step now event_type payload ∷ steps) q =
      left c steps (offered (event_at now event_type payload) q)
  left c (_ ∷ steps) q = left c steps q

  own_run-left :
      (c : ℕ) (steps : List (Step P)) (q : List (Event P))
      → Stays c steps
      → own_run c steps (some q) ≡ some (left c steps q)
  own_run-left c [] q s = refl
  own_run-left c (join_step d ∷ steps) q s = rw s.0 (own_run-left c steps q s.1)
  own_run-left c (leave_step d ∷ steps) q s = rw s.0 (own_run-left c steps q s.1)
  own_run-left c (receive_step d ∷ steps) q s = elim (Bool-cases (nat_eq d c)) [
    | inl own ↦ rw own (own_run-left c steps (tail q) s)
    | inr other ↦ rw other (own_run-left c steps q s)
  ]
  own_run-left c (broadcast_step now event_type payload ∷ steps) q s =
      own_run-left c steps (offered (event_at now event_type payload) q) s

  Within-refl : (xs : List (Event P)) → Within xs xs
  Within-refl [] = tt
  Within-refl (x ∷ xs) = inl (refl, Within-refl xs)

  Within-skip :
      (xs : List (Event P)) (y : Event P) (ys : List (Event P)) → Within xs ys → Within xs (y ∷ ys)
  Within-skip [] y ys h = tt
  Within-skip (x ∷ xs) y ys h = inr h

  Within-prefix :
      (q xs ys : List (Event P)) → Within xs ys → Within (List.◌++◌ q xs) (List.◌++◌ q ys)
  Within-prefix [] xs ys h = h
  Within-prefix (e ∷ q) xs ys h = inl (refl, Within-prefix q xs ys h)

  Within-drop :
      (q : List (Event P)) (e : Event P) (ys xs : List (Event P))
      → Within xs (List.◌++◌ q ys)
      → Within xs (List.◌++◌ q (e ∷ ys))
  Within-drop [] e ys xs h = Within-skip xs e ys h
  Within-drop (d ∷ q) e ys [] h = tt
  Within-drop (d ∷ q) e ys (x ∷ xs) (inl h) = inl (h.0, Within-drop q e ys xs h.1)
  Within-drop (d ∷ q) e ys (x ∷ xs) (inr h) = inr (Within-drop q e ys (x ∷ xs) h)

  append-snoc :
      (q : List (Event P)) (e : Event P) (ys : List (Event P))
      → List.◌++◌ (List.◌++◌ q (e ∷ [])) ys ≡ List.◌++◌ q (e ∷ ys)
  append-snoc [] e ys = refl
  append-snoc (d ∷ q) e ys = ap (◌∷◌ d) (append-snoc q e ys)

  append-nil : (q : List (Event P)) → List.◌++◌ q [] ≡ q
  append-nil [] = refl
  append-nil (d ∷ q) = ap (◌∷◌ d) (append-nil q)

  offered-Within :
      (e : Event P) (q ys xs : List (Event P))
      → Within xs (List.◌++◌ (offered e q) ys)
      → Within xs (List.◌++◌ q (e ∷ ys))
  offered-Within e q ys xs h = elim (Bool-cases (ltb (length q) capacity)) [
    | inl room ↦ subst (Within xs) (append-snoc q e ys) (rw room at h)
    | inr full ↦ Within-drop q e ys xs (rw full at h)
  ]

  taken-Within :
      (c : ℕ) (steps : List (Step P)) (q : List (Event P))
      → Within (List.◌++◌ (taken c steps q) (left c steps q)) (List.◌++◌ q (broadcasts steps))
  taken-Within c [] q = subst (Within q) (sym (append-nil q)) (Within-refl q)
  taken-Within c (join_step d ∷ steps) q = taken-Within c steps q
  taken-Within c (leave_step d ∷ steps) q = taken-Within c steps q
  taken-Within c (receive_step d ∷ steps) [] = elim (Bool-cases (nat_eq d c)) [
    | inl own ↦ rw own (taken-Within c steps [])
    | inr other ↦ rw other (taken-Within c steps [])
  ]
  taken-Within c (receive_step d ∷ steps) (e ∷ q) = elim (Bool-cases (nat_eq d c)) [
    | inl own ↦ rw own (inl (refl, taken-Within c steps q))
    | inr other ↦ rw other (taken-Within c steps (e ∷ q))
  ]
  taken-Within c (broadcast_step now event_type payload ∷ steps) q =
      let e = event_at now event_type payload in
      offered-Within e q (broadcasts steps) _ (taken-Within c steps (offered e q))

  -- Over any run during which the client stays, with `q` in its queue before: what its writer takes
  -- off and what is left, in this order, is what was in the queue and was broadcast since, in order
  -- and each event at most once; some broadcasts may be missing.
  pub run-Within :
      (c : ℕ) (steps : List (Step P)) (h : Hub P) (q : List (Event P))
      → queue_of c h ≡ some q
      → Stays c steps
      → (queue_of c (run steps h) ≡ some (left c steps q))
        × Within (List.◌++◌ (taken c steps q) (left c steps q)) (List.◌++◌ q (broadcasts steps))
  run-Within c steps h q here stays = (
    queue_of-run c steps h ∙ ap (own_run c steps) here ∙ own_run-left c steps q stays,
    taken-Within c steps q,
  )

  length-tail : (q : List (Event P)) → length (tail q) ≤ length q
  length-tail [] = omega arith
  length-tail (e ∷ q) = omega arith

  -- Nothing is missing as long as the broadcasts fit into the channel beside what waits in it.
  taken_all :
      (c : ℕ) (steps : List (Step P)) (q : List (Event P))
      → length q + length (broadcasts steps) ≤ capacity
      → List.◌++◌ (taken c steps q) (left c steps q) ≡ List.◌++◌ q (broadcasts steps)
  taken_all c [] q h = sym (append-nil q)
  taken_all c (join_step d ∷ steps) q h = taken_all c steps q h
  taken_all c (leave_step d ∷ steps) q h = taken_all c steps q h
  taken_all c (receive_step d ∷ steps) [] h = elim (Bool-cases (nat_eq d c)) [
    | inl own ↦ rw own (taken_all c steps [] h)
    | inr other ↦ rw other (taken_all c steps [] h)
  ]
  taken_all c (receive_step d ∷ steps) (e ∷ q) h = elim (Bool-cases (nat_eq d c)) [
    | inl own ↦ rw own (ap (◌∷◌ e) (taken_all c steps q (omega arith)))
    | inr other ↦ rw other (taken_all c steps (e ∷ q) h)
  ]
  taken_all c (broadcast_step now event_type payload ∷ steps) q h =
      let e = event_at now event_type payload in
      let room : ltb (length q) capacity ≡ true = ground arith in
      let rest =
        taken_all c steps (List.◌++◌ q (e ∷ [])) (omega (arith, length-append q (e ∷ []))) in
      rw room (rest ∙ append-snoc q e (broadcasts steps))

  -- A client whose queue and whose broadcasts together are no more than the capacity gets all of
  -- them, in order, even if it is never read from.
  pub run_lossless :
      (c : ℕ) (steps : List (Step P)) (h : Hub P) (q : List (Event P))
      → queue_of c h ≡ some q
      → Stays c steps
      → length q + length (broadcasts steps) ≤ capacity
      → (queue_of c (run steps h) ≡ some (left c steps q))
        × (List.◌++◌ (taken c steps q) (left c steps q) ≡ List.◌++◌ q (broadcasts steps))
  run_lossless c steps h q here stays fits =
      ((run-Within c steps h q here stays).0, taken_all c steps q fits)
