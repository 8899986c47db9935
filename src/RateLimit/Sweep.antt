-- ===== src/RateLimit/Sweep.antt =====
-- The goroutine of `New` in internal/ratelimit/ratelimit.go only frees memory: what `Allow`
-- answers does not depend on when, or whether, it runs.
use btrfs_snapah_pow.Base.{
  ℕ, ◌≤◌, ◌≡◌, refl, String, Bool, true, false, not, Option, none, some, List, [], ◌∷◌, lookup,
  lookup-insert, insert, insert-Unique, Unique, lookup-retain, retain-Unique, where_true, arith,
  Option-cases, Bool-cases, sym, ap, if◌then◌else◌, ◌==◌, inl, inr, ◌∙◌,
}
use btrfs_snapah_pow.Base.Int.{add_int}
use btrfs_snapah_pow.RateLimit.{Visitor, Limiter, Clock, expired, allow, allow_visitor, sweep}
use btrfs_snapah_pow.RateLimit.Window.{allow_config}

-- What happens to a limiter: a request, or a tick of the goroutine.
pub data Event : Type 0 where
  request : String → Clock → Event
  tick : ℕ → Event

-- The answers to the requests, with the ticks carried out and with the ticks left out.
unfoldable pub answers : Limiter → List Event → List Bool
answers l [] = []
answers l (request ip t ∷ es) = (allow l ip t).1 ∷ answers (allow l ip t).0 es
answers l (tick now ∷ es) = answers (sweep now l) es

pub answers_unswept : Limiter → List Event → List Bool
answers_unswept l [] = []
answers_unswept l (request ip t ∷ es) = (allow l ip t).1 ∷ answers_unswept (allow l ip t).0 es
answers_unswept l (tick now ∷ es) = answers_unswept l es

-- The clock never runs backwards.
abbrev pub Monotone : ℕ → List Event → Type 0
Monotone now [] = Unit
Monotone now (request ip t ∷ es) = (now ≤ t.since) × (t.since ≤ t.now) × Monotone t.now es
Monotone now (tick t ∷ es) = (now ≤ t) × Monotone t es

-- The visitors that have not expired at `now`.
abbrev live : ℕ → ℕ → Option Visitor → Option Visitor
live now window o = where_true (λ v. not (expired now window v)) o

-- Two limiters that agree on the visitors alive at `now`.
record Agree (now : ℕ) (l l' : Limiter) : Type 0 where
  limits : l.limit ≡ l'.limit
  windows : l.window ≡ l'.window
  uniques : Unique l.visitors
  visitors :
      (ip : String)
      → live now l.window (lookup ip l.visitors) ≡ live now l'.window (lookup ip l'.visitors)

live_later :
    (o o' : Option Visitor) (now later w w' : ℕ)
    → now ≤ later
    → w ≡ w'
    → live now w o ≡ live now w' o'
    → live later w o ≡ live later w' o'
live_later none none now later w w' h e k = refl
live_later none (some v) now later w w' h e k = ground arith
live_later (some u) none now later w w' h e k = ground arith
live_later (some u) (some v) now later w w' h e k = ground arith

retained :
    (o : Option Visitor) (t window : ℕ)
    → live t window (where_true (λ v. not (expired t window v)) o) ≡ live t window o
retained none t window = refl
retained (some v) t window = ground arith

sweep-Agree : (now t : ℕ) (l l' : Limiter) → now ≤ t → Agree now l l' → Agree t (sweep t l) l'
unfolding sweep
sweep-Agree now t l l' h a = record {
  limits = a.limits;
  windows = a.windows;
  uniques = retain-Unique (λ v. not (expired t l.window v)) l.visitors a.uniques;
  visitors = λ ip. rw (lookup-retain (λ v. not (expired t l.window v)) ip l.visitors a.uniques) (
      retained (lookup ip l.visitors) t l.window
      ∙ live_later (lookup ip l.visitors) (lookup ip l'.visitors) now t l.window l'.window h
          a.windows (a.visitors ip));
}

-- The visitor that a request leaves behind.
next_visitor : Limiter → Clock → Option Visitor → Visitor
next_visitor l t none = record { count = 1; last_seen = t.now }
next_visitor l t (some v) = record {
  count = if expired t.since l.window v then 1 else add_int v.count 1;
  last_seen = t.now;
}

allow_visitors :
    (l : Limiter) (ip : String) (t : Clock)
    → (allow l ip t).0.visitors ≡ insert ip (next_visitor l t (lookup ip l.visitors)) l.visitors
unfolding allow next_visitor
allow_visitors l ip t = elim (Option-cases (lookup ip l.visitors)) [
  | inl new ↦ ground arith
  | inr (v, known) ↦ elim (Bool-cases (expired t.since l.window v)) [
    | inl idle ↦ ground arith
    | inr busy ↦ ground arith
  ]
]

lookup-allow :
    (l : Limiter) (ip j : String) (t : Clock)
    → lookup j (allow l ip t).0.visitors
      ≡ (if ip == j then some (next_visitor l t (lookup ip l.visitors)) else lookup j l.visitors)
lookup-allow l ip j t =
    ap (lookup j) (allow_visitors l ip t)
    ∙ lookup-insert ip j (next_visitor l t (lookup ip l.visitors)) l.visitors

-- The answer, and the visitor left behind, read only what is alive at the request.
step_alive :
    (o o' : Option Visitor) (l l' : Limiter) (ip : String) (t : Clock)
    → l.limit ≡ l'.limit
    → l.window ≡ l'.window
    → live t.since l.window o ≡ live t.since l'.window o'
    → ((allow_visitor l ip t o).1 ≡ (allow_visitor l' ip t o').1)
      × (next_visitor l t o ≡ next_visitor l' t o')
unfolding allow_visitor next_visitor
step_alive none none l l' ip t limits windows e = ground arith
step_alive none (some v) l l' ip t limits windows e = ground arith
step_alive (some u) none l l' ip t limits windows e = ground arith
step_alive (some u) (some v) l l' ip t limits windows e = ground arith

allow_answer :
    (now : ℕ) (ip : String) (t : Clock) (l l' : Limiter)
    → now ≤ t.since
    → Agree now l l'
    → ((allow l ip t).1 ≡ (allow l' ip t).1)
      × (next_visitor l t (lookup ip l.visitors) ≡ next_visitor l' t (lookup ip l'.visitors))
unfolding allow
allow_answer now ip t l l' h a =
    step_alive (lookup ip l.visitors) (lookup ip l'.visitors) l l' ip t a.limits a.windows (
      live_later (lookup ip l.visitors) (lookup ip l'.visitors) now t.since l.window l'.window h
        a.windows (a.visitors ip))

same_live :
    (b : Bool) (x x' : Visitor) (o o' : Option Visitor) (t w w' : ℕ)
    → w ≡ w'
    → x ≡ x'
    → live t w o ≡ live t w' o'
    → live t w (if b then some x else o) ≡ live t w' (if b then some x' else o')
same_live true x x' o o' t w w' e k h = cc
same_live false x x' o o' t w w' e k h = h

allow-Agree :
    (now : ℕ) (ip : String) (t : Clock) (l l' : Limiter)
    → now ≤ t.since
    → t.since ≤ t.now
    → Agree now l l'
    → Agree t.now (allow l ip t).0 (allow l' ip t).0
allow-Agree now ip t l l' h k a =
    let (limit, window) = allow_config l ip t in
    let (limit', window') = allow_config l' ip t in
    record {
      limits = limit ∙ a.limits ∙ sym limit';
      windows = window ∙ a.windows ∙ sym window';
      uniques =
          rw (allow_visitors l ip t)
            (insert-Unique ip (next_visitor l t (lookup ip l.visitors)) l.visitors a.uniques);
      visitors = λ j.
          rw (lookup-allow l ip j t, lookup-allow l' ip j t, window, window')
            (same_live (ip == j) (next_visitor l t (lookup ip l.visitors))
              (next_visitor l' t (lookup ip l'.visitors)) (lookup j l.visitors)
              (lookup j l'.visitors) t.now l.window l'.window a.windows
              (allow_answer now ip t l l' h a).1
              (live_later (lookup j l.visitors) (lookup j l'.visitors) now t.now l.window l'.window
                (omega arith) a.windows (a.visitors j)));
    }

answers-Agree :
    (now : ℕ) (l l' : Limiter) (es : List Event)
    → Monotone now es
    → Agree now l l'
    → answers l es ≡ answers_unswept l' es
unfolding answers answers_unswept
answers-Agree now l l' [] m a = refl
answers-Agree now l l' (request ip t ∷ es) m a = cc (
  (allow_answer now ip t l l' m.0 a).0,
  answers-Agree t.now (allow l ip t).0 (allow l' ip t).0 es m.2
      (allow-Agree now ip t l l' m.0 m.1 a),
)
answers-Agree now l l' (tick t ∷ es) m a =
    answers-Agree t (sweep t l) l' es m.1 (sweep-Agree now t l l' m.0 a)

-- Whatever the moments at which the goroutine sweeps, the requests get the answers that they
-- would get if it never did, provided that the clock does not run backwards.
pub sweep_unobservable :
    (now : ℕ) (l : Limiter) (es : List Event)
    → Unique l.visitors
    → Monotone now es
    → answers l es ≡ answers_unswept l es
sweep_unobservable now l es u m =
    answers-Agree now l l es m
      (record { limits = refl; windows = refl; uniques = u; visitors = λ ip. refl })
