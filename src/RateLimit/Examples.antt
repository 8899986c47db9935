-- ===== src/RateLimit/Examples.antt =====
-- The limiter at concrete inputs.
use btrfs_snapah_pow.Base.{
  suc, ℕ, ◌≡◌, refl, ◌≢◌, ◌⊎◌, String, true, false, some, List, [], ◌∷◌, lookup, insert, retain,
  eq_iff, arith, leb,
}
use btrfs_snapah_pow.Http.{Handler, Request, fresh, status, sent_header, set_header, Json, write}
use btrfs_snapah_pow.RateLimit.{Limiter, Clock, allow, sweep, client_key, middleware}
use btrfs_snapah_pow.RateLimit.Window.{hits, burst_limit, refused_until_idle, allow_independent}
use btrfs_snapah_pow.RateLimit.Sweep.{
  Event, request, tick, answers, answers_unswept, sweep_unobservable,
}
use btrfs_snapah_pow.RateLimit.Middleware.{middleware_gate, forwarded_bypass}

abbrev clock : ℕ → Clock
clock n = record { since = n; now = n }

-- Two requests a minute of 60 ticks.
abbrev two_a_minute : Limiter
two_a_minute = record { visitors = []; limit = 2; window = 60 }

abbrev full : Limiter
full = record {
  visitors = ("10.0.0.1", record { count = 2; last_seen = 100 }) ∷ [];
  limit = 2;
  window = 60;
}

abbrev busy_day : List Event
busy_day =
    request "a" (clock 0)
    ∷ request "a" (clock 10)
    ∷ tick 30
    ∷ request "a" (clock 40)
    ∷ tick 200
    ∷ request "a" (clock 201)
    ∷ []

busy_day-answers : answers two_a_minute busy_day ≡ true ∷ true ∷ false ∷ true ∷ []
unfolding answers allow sweep lookup insert retain
busy_day-answers = refl

burst_limit_example :
    (allow (hits two_a_minute "a" (clock 0 ∷ clock 10 ∷ [])) "a" (clock 20)).1 ≡ leb 3 2
burst_limit_example =
    burst_limit two_a_minute "a" (clock 0) (clock 10 ∷ []) (clock 20) (unfold lookup in refl)
      (omega arith) (omega arith) (omega arith) (omega arith)

refused_until_idle_example :
    (allow (hits full "10.0.0.1" (clock 150 ∷ clock 210 ∷ [])) "10.0.0.1" (clock 270)).1 ≡ false
refused_until_idle_example =
    refused_until_idle full "10.0.0.1" (clock 150 ∷ clock 210 ∷ []) (clock 270)
      (record { count = 2; last_seen = 100 }) (unfold lookup in refl) (omega arith) (omega arith)
      (omega arith) (omega arith)

a_ne_b : ◌≢◌ {A = String} "10.0.0.1" "b"
a_ne_b = ground (arith, eq_iff "10.0.0.1" "b")

allow_independent_run :
    (allow (hits full "10.0.0.1" (clock 150 ∷ [])) "b" (clock 151)).1
    ≡ (allow full "b" (clock 151)).1
allow_independent_run = allow_independent full "10.0.0.1" "b" (clock 150 ∷ []) (clock 151) a_ne_b

sweep_unobservable_example : answers two_a_minute busy_day ≡ answers_unswept two_a_minute busy_day
sweep_unobservable_example = sweep_unobservable 0 two_a_minute busy_day tt (omega arith)

-- A handler that counts its calls.
abbrev counting : Handler ℕ ℕ
counting w r s = (write Json.null w, suc s)

abbrev plain : Request ℕ
plain = record { method = "GET"; remote_addr = "10.0.0.1"; header = []; query = []; body = 0 }

refused : status (middleware (clock 110) counting fresh plain (full, 0)).0 ≡ 429
unfolding middleware client_key allow lookup insert
refused = refl

abbrev visited : Limiter
visited = (allow full (client_key plain) (clock 110)).0

middleware_gate_run :
    let (w', (l', s')) = middleware (clock 110) counting fresh plain (full, 7) in
    let (counted, admitted) = allow full (client_key plain) (clock 110) in
    (l' ≡ counted)
    × ((admitted ≡ true) × (w' ≡ (counting fresh plain 7).0) × (s' ≡ (counting fresh plain 7).1)
        ⊎ (admitted ≡ false)
          × (status w' ≡ 429)
          × (sent_header "Retry-After" w' ≡ some "60")
          × (s' ≡ 7))
middleware_gate_run = middleware_gate (clock 110) counting plain full 7

forwarded_bypass_example :
    let forged = set_header "X-Forwarded-For" "1.2.3.4" plain in
    let (w', (l', s')) = middleware (clock 110) counting fresh forged (full, 7) in
    (w' ≡ (counting fresh forged 7).0) × (s' ≡ 8)
forwarded_bypass_example =
    forwarded_bypass (clock 110) counting plain full 7 "1.2.3.4"
      (ground (arith, eq_iff "1.2.3.4" "")) (unfold lookup in refl)
