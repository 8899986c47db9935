-- ===== src/RateLimit.antt =====
-- internal/ratelimit/ratelimit.go. A method that changes the limiter returns the new one. Each
-- clock reading is an argument, in nanoseconds; `int` is the bit pattern of an int64.
pub mod Window
pub mod Sweep
pub mod Middleware
mod Examples
use btrfs_snapah_pow.Base.{
  ℕ, ◌+◌, ◌%◌, String, Bool, true, false, ◌||◌, Option, none, some, [], ◌∷◌, GoMap, lookup, insert,
  retain, ltb, leb, not, if◌then◌else◌, is_empty,
}
use btrfs_snapah_pow.Base.Int.{add_int, le_int}
use btrfs_snapah_pow.Http.{Handler, Request, get, set, write, write_header, Json}

pub record Visitor : Type 0 where
  pub count : ℕ
  pub last_seen : ℕ

pub record Limiter : Type 0 where
  pub visitors : GoMap Visitor
  pub limit : ℕ
  pub window : ℕ

-- `New`, without the goroutine that sweeps: see `sweep`.
unfoldable pub new : ℕ → ℕ → Limiter
new limit window = record { visitors = []; limit = limit; window = window }

-- `time.Since(v.lastSeen) > l.window`, read at `now`
abbrev pub expired : ℕ → ℕ → Visitor → Bool
expired now window v = ltb (v.last_seen + window) now

-- The two clock readings of a call: in the test, and for `lastSeen`.
pub record Clock : Type 0 where
  pub since : ℕ
  pub now : ℕ

-- `l.visitors[ip] = …`, with the answer
abbrev store : Limiter → String → Visitor → Bool → Limiter × Bool
store l ip v ok = (record l { visitors = insert ip v l.visitors }, ok)

-- the first branch of `Allow`: a visitor that is new, or was idle for longer than the window
abbrev admit : Limiter → String → Clock → Limiter × Bool
admit l ip t = store l ip (record { count = 1; last_seen = t.now }) true

-- the rest of `Allow`: `v` is a pointer into the map, so the counted visitor is in it
abbrev recount : Limiter → String → Clock → Visitor → Limiter × Bool
recount l ip t v =
    let n = add_int v.count 1 in
    store l ip (record { count = n; last_seen = t.now }) (le_int n l.limit)

allow_visitor : Limiter → String → Clock → Option Visitor → Limiter × Bool
allow_visitor l ip t none = admit l ip t
allow_visitor l ip t (some v) =
    if expired t.since l.window v then admit l ip t else recount l ip t v

unfoldable pub allow : Limiter → String → Clock → Limiter × Bool
unfolding allow_visitor
allow l ip t = allow_visitor l ip t (lookup ip l.visitors)

-- What the goroutine of `New` does at each tick: it deletes the visitors that have expired.
unfoldable pub sweep : ℕ → Limiter → Limiter
sweep now l = record l { visitors = retain (λ v. not (expired now l.window v)) l.visitors }

-- The key of a request: the forwarded address if the client sends one.
unfoldable pub client_key : {B : Type 0} → Request B → String
client_key r =
    let fwd = get "X-Forwarded-For" r.header in if not (is_empty fwd) then fwd else r.remote_addr

-- `Middleware`; the server's state holds the limiter beside `next`'s state.
unfoldable pub middleware : {B S : Type 0} → Clock → Handler B S → Handler B (Limiter × S)
middleware t next w r (l, s) =
    let (l', ok) = allow l (client_key r) t in
    if not ok
    then (
      write (Json.text "{\"error\":\"rate limit excedido, intenta en 60 segundos\"}")
          (write_header 429 (set "Retry-After" "60" (set "Content-Type" "application/json" w))),
      (l', s),
    )
    else let (w', s') = next w r s in (w', (l', s'))
