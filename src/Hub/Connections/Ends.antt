-- ===== src/Hub/Connections/Ends.antt =====
-- What the connections of internal/hub/hub.go keep to.
use btrfs_snapah_pow.Base.{
  ℕ, ◌≡◌, refl, ap, ◌∙◌, ◌⊎◌, inl, inr, String, Bool, true, false, none, some, [], ◌∷◌, arith,
}
use btrfs_snapah_pow.Hub.{Hub, broadcast, join, leave, receive, queue_of}
use btrfs_snapah_pow.Hub.Connections.{
  Phase, reading, broken, removed, returned, Connection, accepted, Step, read_message, read_failed,
  delete_client, close, ping_answered, ping_failed, ping_done, write_event, write_failed,
  write_done, broadcast_event, Reach, here, next,
}

-- whether the client is still to be deleted
abbrev pub listed : Phase → Bool
listed reading = true
listed broken = true
listed removed = false
listed returned = false

abbrev pub has_returned : Phase → Bool
has_returned returned = true
has_returned _ = false

module _ {P : Type 0} (c : ℕ) where
  -- The client is known
  abbrev pub known : Hub P → Bool
  known h = elim (queue_of c h) [ none ↦ false | some q ↦ true ]

  known-receive : (h : Hub P) → known (receive c h) ≡ known h
  unfolding receive queue_of
  known-receive [] = refl
  known-receive (d ∷ h) = ground (arith, known-receive h)

  known-leave : (h : Hub P) → known (leave c h) ≡ false
  unfolding leave queue_of
  known-leave [] = refl
  known-leave (d ∷ h) = ground (arith, known-leave h)

  known-broadcast :
      (now : ℕ) (event_type : String) (payload : P) (h : Hub P)
      → known (broadcast now event_type payload h) ≡ known h
  unfolding broadcast queue_of
  known-broadcast now event_type payload [] = refl
  known-broadcast now event_type payload (d ∷ h) =
      ground (arith, known-broadcast now event_type payload h)

  -- The hub knows the client until the deletion, and no goroutine is done before the context.
  pub record Tied (s : Connection P) : Type 0 where
    pub known_listed : known s.hub ≡ listed s.phase
    pub returned_done : (has_returned s.phase ≡ false) ⊎ (s.cancelled ≡ true)
    pub writing_done : (s.writing ≡ true) ⊎ (s.cancelled ≡ true)
    pub pinging_done : (s.pinging ≡ true) ⊎ (s.cancelled ≡ true)

  pub step-Tied : {s s' : Connection P} → Step c s s' → Tied s → Tied s'
  step-Tied (read_message on going) h = h
  step-Tied (read_failed on) h = record {
    known_listed = h.known_listed ∙ ap listed on;
    returned_done = inl refl;
    writing_done = h.writing_done;
    pinging_done = h.pinging_done;
  }
  step-Tied {s} (delete_client on) h = record {
    known_listed = known-leave s.hub;
    returned_done = inl refl;
    writing_done = h.writing_done;
    pinging_done = h.pinging_done;
  }
  step-Tied (close on) h = record {
    known_listed = h.known_listed ∙ ap listed on;
    returned_done = inr refl;
    writing_done = inr refl;
    pinging_done = inr refl;
  }
  step-Tied (ping_answered on) h = h
  step-Tied (ping_failed on) h = record {
    known_listed = h.known_listed;
    returned_done = inr refl;
    writing_done = inr refl;
    pinging_done = inr refl;
  }
  step-Tied (ping_done on over) h = record {
    known_listed = h.known_listed;
    returned_done = h.returned_done;
    writing_done = h.writing_done;
    pinging_done = inr over;
  }
  step-Tied {s} (write_event e queue on waits) h = record {
    known_listed = known-receive s.hub ∙ h.known_listed;
    returned_done = h.returned_done;
    writing_done = h.writing_done;
    pinging_done = h.pinging_done;
  }
  step-Tied {s} (write_failed e queue on waits) h = record {
    known_listed = known-receive s.hub ∙ h.known_listed;
    returned_done = inr refl;
    writing_done = inr refl;
    pinging_done = inr refl;
  }
  step-Tied (write_done on over) h = record {
    known_listed = h.known_listed;
    returned_done = h.returned_done;
    writing_done = inr over;
    pinging_done = h.pinging_done;
  }
  step-Tied {s} (broadcast_event now event_type payload) h = record {
    known_listed = known-broadcast now event_type payload s.hub ∙ h.known_listed;
    returned_done = h.returned_done;
    writing_done = h.writing_done;
    pinging_done = h.pinging_done;
  }

  Reach-Tied : {s s' : Connection P} → Reach c s s' → Tied s → Tied s'
  Reach-Tied here h = h
  Reach-Tied (next r st) h = step-Tied st (Reach-Tied r h)

  known-join : (h : Hub P) → known (join c h) ≡ true
  unfolding join queue_of
  known-join h = ground arith

  -- Whatever a connection's reads, writes and pings answer, and whatever is broadcast meanwhile: the
  -- hub knows the client exactly until the end of its loop has deleted it, and the goroutine of
  -- `ServeWS`, the writer and the ping return only when the context is done.
  pub reachable_Tied : (h : Hub P) (s : Connection P) → Reach c (accepted c h) s → Tied s
  unfolding accepted
  reachable_Tied h s r = Reach-Tied r (record {
    known_listed = known-join h;
    returned_done = inl refl;
    writing_done = inl refl;
    pinging_done = inl refl;
  })
