-- ===== src/Hub/Connections/Winding.antt =====
-- How the connections of internal/hub/hub.go wind up: the steps that a goroutine takes of itself, which
-- no answer of the connection decides.
use btrfs_snapah_pow.Base.{
  ℕ, suc, ◌+◌, ◌<◌, ◌≤◌, ◌≡◌, refl, sym, ap, ◌∙◌, ◌⊎◌, inl, inr, Bool, true, false, Bool-cases,
  arith,
}
use btrfs_snapah_pow.Hub.{Hub}
use btrfs_snapah_pow.Hub.Connections.{
  Phase, reading, broken, removed, returned, Connection, accepted, broken_off, deleted, closed,
  Step, read_failed, delete_client, close, ping_done, write_done, Reach,
}
use btrfs_snapah_pow.Hub.Connections.Ends.{
  listed, has_returned, known, Tied, step-Tied, reachable_Tied,
}

abbrev pub is_reading : Phase → Bool
is_reading reading = true
is_reading _ = false

abbrev phase_left : Phase → ℕ
phase_left reading = 3
phase_left broken = 2
phase_left removed = 1
phase_left returned = 0

abbrev one_left : Bool → ℕ
one_left true = 1
one_left false = 0

phase_left_bound : (p : Phase) → phase_left p ≤ 3
phase_left_bound reading = omega arith
phase_left_bound broken = omega arith
phase_left_bound removed = omega arith
phase_left_bound returned = omega arith

one_left_bound : (b : Bool) → one_left b ≤ 1
one_left_bound true = omega arith
one_left_bound false = omega arith

module _ {P : Type 0} (c : ℕ) where
  -- A read ends when the context is done; the loop's end goes its way; and the writer and the ping see
  -- that the context is done.
  pub data Winds : Connection P → Connection P → Type 0 where
    read_over :
        {s : Connection P} → s.phase ≡ reading → s.cancelled ≡ true → Winds s (broken_off c s)
    deletes : {s : Connection P} → s.phase ≡ broken → Winds s (deleted c s)
    closes : {s : Connection P} → s.phase ≡ removed → Winds s (closed c s)
    writer_returns :
        {s : Connection P}
        → s.writing ≡ true
        → s.cancelled ≡ true
        → Winds s (record s { writing = false })
    ping_returns :
        {s : Connection P}
        → s.pinging ≡ true
        → s.cancelled ≡ true
        → Winds s (record s { pinging = false })

  Winds-Step : {s s' : Connection P} → Winds s s' → Step c s s'
  Winds-Step (read_over on over) = read_failed on
  Winds-Step (deletes on) = delete_client on
  Winds-Step (closes on) = close on
  Winds-Step (writer_returns on over) = write_done on over
  Winds-Step (ping_returns on over) = ping_done on over

  -- that many of these steps
  pub data Winding : ℕ → Connection P → Connection P → Type 0 where
    still : {s : Connection P} → Winding 0 s s
    further :
        {n : ℕ} {s s' s'' : Connection P} → Winding n s s' → Winds s' s'' → Winding (suc n) s s''

  -- The loop has ended, or the context is done.
  abbrev pub Stopping : Connection P → Type 0
  Stopping s = (is_reading s.phase ≡ false) ⊎ (s.cancelled ≡ true)

  -- Nothing is left of the connection.
  pub record Finished (s : Connection P) : Type 0 where
    pub unknown : known c s.hub ≡ false
    pub phase_over : s.phase ≡ returned
    pub written : s.writing ≡ false
    pub pinged : s.pinging ≡ false

  abbrev left : Connection P → ℕ
  left s = phase_left s.phase + one_left s.writing + one_left s.pinging

  Winds-less : {s s' : Connection P} → Winds s s' → left s' < left s
  Winds-less {s} (read_over on over) = rw on (omega arith)
  Winds-less {s} (deletes on) = rw on (omega arith)
  Winds-less {s} (closes on) = rw on (omega arith)
  Winds-less {s} (writer_returns on over) = rw on (omega arith)
  Winds-less {s} (ping_returns on over) = rw on (omega arith)

  Winds-Stopping : {s s' : Connection P} → Winds s s' → Stopping s → Stopping s'
  Winds-Stopping (read_over on over) h = inl refl
  Winds-Stopping (deletes on) h = inl refl
  Winds-Stopping (closes on) h = inl refl
  Winds-Stopping (writer_returns on over) h = h
  Winds-Stopping (ping_returns on over) h = h

  after_return :
      (s : Connection P)
      → Tied c s
      → s.phase ≡ returned
      → s.cancelled ≡ true
      → Finished s ⊎ ((s' : Connection P) × Winds s s')
  after_return s tied on over = elim (Bool-cases s.writing) [
    | inl writes ↦ inr (_, writer_returns writes over)
    | inr wrote ↦ elim (Bool-cases s.pinging) [
      | inl pings ↦ inr (_, ping_returns pings over)
      | inr pinged ↦ inl (record {
        unknown = tied.known_listed ∙ ap listed on;
        phase_over = on;
        written = wrote;
        pinged = pinged;
      })
    ]
  ]

  reading_over : (s : Connection P) → s.phase ≡ reading → Stopping s → s.cancelled ≡ true
  reading_over s on (inl ended) =
      let clash : true ≡ false = sym (ap is_reading on) ∙ ended in absurd cc
  reading_over s on (inr over) = over

  returned_over : (s : Connection P) → s.phase ≡ returned → Tied c s → s.cancelled ≡ true
  returned_over s on tied = elim (tied.returned_done) [
    | inl there ↦ let clash : true ≡ false = sym (ap has_returned on) ∙ there in absurd cc
    | inr over ↦ over
  ]

  phase_progress :
      (s : Connection P) (p : Phase)
      → s.phase ≡ p
      → Tied c s
      → Stopping s
      → Finished s ⊎ ((s' : Connection P) × Winds s s')
  phase_progress s reading on tied stops = inr (_, read_over on (reading_over s on stops))
  phase_progress s broken on tied stops = inr (_, deletes on)
  phase_progress s removed on tied stops = inr (_, closes on)
  phase_progress s returned on tied stops = after_return s tied on (returned_over s on tied)

  winding_kept :
      {n : ℕ} {s t : Connection P}
      → Winding n s t
      → Tied c s
      → Stopping s
      → Tied c t × Stopping t × (n + left t ≤ left s)
  winding_kept still tied stops = (tied, stops, omega arith)
  winding_kept (further w st) tied stops =
      let (tied', stops', fewer) = winding_kept w tied stops in
      (
        step-Tied c (Winds-Step st) tied',
        Winds-Stopping st stops',
        omega (arith, fewer, Winds-less st),
      )

  -- Once the loop of a connection has ended or its context is done, its goroutines wind up of
  -- themselves, in any order: they take five steps at most, and as long as something is left of the
  -- connection, one of them has a step to take that depends on nobody's answer.
  pub Stopping-finishes :
      (h : Hub P) (s t : Connection P) (n : ℕ)
      → Reach c (accepted c h) s
      → Stopping s
      → Winding n s t
      → (n ≤ 5) × (Finished t ⊎ ((t' : Connection P) × Winds t t'))
  Stopping-finishes h s t n reached stops w =
      let (tied, stops', fewer) = winding_kept w (reachable_Tied c h s reached) stops in
      (
        omega (
          arith,
          fewer,
          phase_left_bound s.phase,
          one_left_bound s.writing,
          one_left_bound s.pinging,
        ),
        phase_progress t t.phase refl tied stops',
      )
