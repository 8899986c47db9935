-- ===== src/RateLimit/Middleware.antt =====
-- `Middleware` of internal/ratelimit/ratelimit.go.
use btrfs_snapah_pow.Base.{
  ◌≡◌, refl, ◌≢◌, ◌⊎◌, inl, inr, String, true, false, none, some, lookup, insert, eq_iff,
  lookup-insert, Bool-cases, arith,
}
use btrfs_snapah_pow.Http.{Handler, Request, fresh, status, sent_header, set_header}
use btrfs_snapah_pow.RateLimit.{Limiter, Clock, allow, client_key, middleware}
use btrfs_snapah_pow.RateLimit.Window.{allow_first}

-- What a limited request leads to: it is admitted, and the answer and the state are those of the
-- handler behind; or it is refused with status 429 and `Retry-After: 60`, the handler does not run
-- and its state stays. The limiter has counted the request either way.
pub middleware_gate :
    {B S : Type 0} (t : Clock) (next : Handler B S) (r : Request B) (l : Limiter) (s : S)
    → let (w', (l', s')) = middleware t next fresh r (l, s) in
      let (counted, admitted) = allow l (client_key r) t in
      (l' ≡ counted)
      × ((admitted ≡ true) × (w' ≡ (next fresh r s).0) × (s' ≡ (next fresh r s).1)
          ⊎ (admitted ≡ false)
            × (status w' ≡ 429)
            × (sent_header "Retry-After" w' ≡ some "60")
            × (s' ≡ s))
unfolding middleware lookup insert
middleware_gate t next r l s = elim (Bool-cases (allow l (client_key r) t).1) [
  | inl admitted ↦ rw admitted (refl, inl (refl, refl, refl))
  | inr refused ↦ rw refused (refl, inr (refl, refl, refl, refl))
]

-- The client chooses its own key: a request that names a forwarded address which the limiter does
-- not know is admitted, whatever the limit, the connection and the requests before it.
pub forwarded_bypass :
    {B S : Type 0} (t : Clock) (next : Handler B S) (r : Request B) (l : Limiter) (s : S)
    (address : String)
    → address ≢ ""
    → lookup address l.visitors ≡ none
    → let forged = set_header "X-Forwarded-For" address r in
      let (w', (l', s')) = middleware t next fresh forged (l, s) in
      (w' ≡ (next fresh forged s).0) × (s' ≡ (next fresh forged s).1)
unfolding middleware client_key
forwarded_bypass t next r l s address ne new = ground (
  arith,
  lookup-insert "X-Forwarded-For" "X-Forwarded-For" address r.header,
  eq_iff address "",
  allow_first l address t,
)
