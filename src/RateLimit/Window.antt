-- ===== src/RateLimit/Window.antt =====
-- What `Allow` of internal/ratelimit/ratelimit.go answers over a run of requests.
use btrfs_snapah_pow.Base.{
  ℕ, ◌+◌, ◌≤◌, ◌<◌, ◌≡◌, refl, ◌≢◌, String, true, false, none, some, List, [], ◌∷◌, lookup,
  lookup-insert, eq_iff, length, leb, arith, Option-cases, inl, inr, ◌∙◌,
}
use btrfs_snapah_pow.Base.Int.{add_int}
use btrfs_snapah_pow.RateLimit.{Visitor, Limiter, Clock, allow}

-- The limiter after the requests of one client.
abbrev pub hits : Limiter → String → List Clock → Limiter
hits l ip [] = l
hits l ip (t ∷ ts) = hits (allow l ip t).0 ip ts

-- Each request comes at most one window after the one before it.
abbrev pub Busy : ℕ → ℕ → List Clock → Type 0
Busy window last [] = Unit
Busy window last (t ∷ ts) = (t.since ≤ last + window) × Busy window t.now ts

abbrev pub last_now : ℕ → List Clock → ℕ
last_now last [] = last
last_now last (t ∷ ts) = last_now t.now ts

-- A client without a live visitor is admitted, and counted from 1.
pub allow_first :
    (l : Limiter) (ip : String) (t : Clock)
    → lookup ip l.visitors ≡ none
    → ((allow l ip t).1 ≡ true)
      × (lookup ip (allow l ip t).0.visitors ≡ some (record { count = 1; last_seen = t.now }))
unfolding allow
allow_first l ip t h =
    ground (
      arith,
      lookup-insert ip ip (record { count = 1; last_seen = t.now }) l.visitors,
      eq_iff ip ip,
    )

-- A client that was idle for longer than the window is admitted, and counted from 1 again.
pub allow_after_idle :
    (l : Limiter) (ip : String) (t : Clock) (v : Visitor)
    → lookup ip l.visitors ≡ some v
    → v.last_seen + l.window < t.since
    → ((allow l ip t).1 ≡ true)
      × (lookup ip (allow l ip t).0.visitors ≡ some (record { count = 1; last_seen = t.now }))
unfolding allow
allow_after_idle l ip t v h idle =
    ground (
      arith,
      lookup-insert ip ip (record { count = 1; last_seen = t.now }) l.visitors,
      eq_iff ip ip,
    )

-- One more request of a live visitor.
pub allow_busy :
    (l : Limiter) (ip : String) (t : Clock) (v : Visitor)
    → lookup ip l.visitors ≡ some v
    → t.since ≤ v.last_seen + l.window
    → v.count + 1 < 9223372036854775808
    → l.limit < 9223372036854775808
    → ((allow l ip t).1 ≡ leb (v.count + 1) l.limit)
      × (lookup ip (allow l ip t).0.visitors
          ≡ some (record { count = v.count + 1; last_seen = t.now }))
unfolding allow
allow_busy l ip t v h busy small cap = ground (
  arith,
  lookup-insert ip ip (record { count = add_int v.count 1; last_seen = t.now }) l.visitors,
  eq_iff ip ip,
)

pub allow_config :
    (l : Limiter) (ip : String) (t : Clock)
    → ((allow l ip t).0.limit ≡ l.limit) × ((allow l ip t).0.window ≡ l.window)
unfolding allow
allow_config l ip t = ground arith

pub hits_config :
    (l : Limiter) (ip : String) (ts : List Clock)
    → ((hits l ip ts).limit ≡ l.limit) × ((hits l ip ts).window ≡ l.window)
hits_config l ip [] = (refl, refl)
hits_config l ip (t ∷ ts) = ground (arith, allow_config l ip t, hits_config (allow l ip t).0 ip ts)

-- After a busy run the visitor counts every request of it, and was last seen at its end.
pub hits_count :
    (l : Limiter) (ip : String) (ts : List Clock) (v : Visitor)
    → lookup ip l.visitors ≡ some v
    → Busy l.window v.last_seen ts
    → v.count + length ts < 9223372036854775808
    → l.limit < 9223372036854775808
    → lookup ip (hits l ip ts).visitors
      ≡ some (record { count = v.count + length ts; last_seen = last_now v.last_seen ts })
hits_count l ip [] v h busy small cap = ground arith
hits_count l ip (t ∷ ts) v h busy small cap = ground (
  arith,
  allow_busy l ip t v,
  allow_config l ip t,
  hits_count (allow l ip t).0 ip ts (record { count = v.count + 1; last_seen = t.now }),
)

-- The limit of a window: of a run of requests that follow one another within the window, the first
-- from a client that is not known, each after the first is admitted exactly if its number in the run
-- is at most the limit. The numbers are in the range of a signed 64-bit integer.
pub burst_limit :
    (l : Limiter) (ip : String) (t₀ : Clock) (ts : List Clock) (t : Clock)
    → lookup ip l.visitors ≡ none
    → Busy l.window t₀.now ts
    → t.since ≤ last_now t₀.now ts + l.window
    → length ts + 2 < 9223372036854775808
    → l.limit < 9223372036854775808
    → (allow (hits l ip (t₀ ∷ ts)) ip t).1 ≡ leb (length ts + 2) l.limit
burst_limit l ip t₀ ts t new busy within small cap =
    let l₁ = (allow l ip t₀).0 in
    ground (
      arith,
      allow_first l ip t₀,
      allow_config l ip t₀,
      hits_config l₁ ip ts,
      hits_count l₁ ip ts (record { count = 1; last_seen = t₀.now }),
      allow_busy (hits l₁ ip ts) ip t
          (record { count = 1 + length ts; last_seen = last_now t₀.now ts }),
    )

-- A client that has reached the limit is refused for as long as it goes on sending within the
-- window, however long that is: a refused request too moves `lastSeen` on. The count stays in the
-- range of a signed 64-bit integer.
pub refused_until_idle :
    (l : Limiter) (ip : String) (ts : List Clock) (t : Clock) (v : Visitor)
    → lookup ip l.visitors ≡ some v
    → l.limit ≤ v.count
    → Busy l.window v.last_seen ts
    → t.since ≤ last_now v.last_seen ts + l.window
    → v.count + length ts + 1 < 9223372036854775808
    → (allow (hits l ip ts) ip t).1 ≡ false
refused_until_idle l ip ts t v h full busy within small = ground (
  arith,
  hits_config l ip ts,
  hits_count l ip ts v,
  allow_busy (hits l ip ts) ip t
      (record { count = v.count + length ts; last_seen = last_now v.last_seen ts }),
)

lookup-allow_ne :
    (l : Limiter) (ip other : String) (t : Clock)
    → ip ≢ other
    → lookup other (allow l ip t).0.visitors ≡ lookup other l.visitors
unfolding allow
lookup-allow_ne l ip other t ne = elim (Option-cases (lookup ip l.visitors)) [
  | inl new ↦ ground (
    arith,
    lookup-insert ip other (record { count = 1; last_seen = t.now }) l.visitors,
    eq_iff ip other,
  )
  | inr (v, known) ↦ ground (
    arith,
    lookup-insert ip other (record { count = 1; last_seen = t.now }) l.visitors,
    lookup-insert ip other (record { count = add_int v.count 1; last_seen = t.now }) l.visitors,
    eq_iff ip other,
  )
]

lookup-hits_ne :
    (l : Limiter) (ip other : String) (ts : List Clock)
    → ip ≢ other
    → lookup other (hits l ip ts).visitors ≡ lookup other l.visitors
lookup-hits_ne l ip other [] ne = refl
lookup-hits_ne l ip other (t ∷ ts) ne =
    lookup-hits_ne (allow l ip t).0 ip other ts ne ∙ lookup-allow_ne l ip other t ne

allow_congruence :
    (l l' : Limiter) (ip : String) (t : Clock)
    → lookup ip l.visitors ≡ lookup ip l'.visitors
    → l.limit ≡ l'.limit
    → l.window ≡ l'.window
    → (allow l ip t).1 ≡ (allow l' ip t).1
unfolding allow
allow_congruence l l' ip t same limits windows = elim (Option-cases (lookup ip l.visitors)) [
  | inl new ↦ ground arith
  | inr (v, known) ↦ ground arith
]

-- Clients do not influence one another: after any run of requests of one client, another gets the
-- answer that it would have got without them.
pub allow_independent :
    (l : Limiter) (ip other : String) (ts : List Clock) (u : Clock)
    → ip ≢ other
    → (allow (hits l ip ts) other u).1 ≡ (allow l other u).1
allow_independent l ip other ts u ne =
    let (limits, windows) = hits_config l ip ts in
    allow_congruence (hits l ip ts) l other u (lookup-hits_ne l ip other ts ne) limits windows
