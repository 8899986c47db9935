-- ===== src/Auth/Tokens.antt =====
-- From `Generate` to `Middleware` of internal/auth/auth.go: the life of a token.
use btrfs_snapah_pow.Base.{
  ℕ, ◌≤◌, ◌<◌, ◌≡◌, refl, ◌≢◌, inl, inr, String, ◌++◌, true, some, List, [], Result, ok,
  Result-cases, arith, eq_iff,
}
use btrfs_snapah_pow.Http.{Handler, Request, fresh, status, set_header}
use btrfs_snapah_pow.Auth.{
  Claims, Method, hmac, Token, Jwt, Manager, claims_for, generate, key_for, validate, role_refused,
  with_claims, middleware,
}
use btrfs_snapah_pow.Auth.Gate.{extract_token-bearer}

-- What the JWT library documents of signing and parsing with one key: a signed token parses to the
-- claims that were signed while it has not expired, and is an error once it has. It is not empty.
pub record JwtLaws (jwt : Jwt) : Type 0 where
  pub parse_signed :
      (secret : String) (c : Claims) (token : String) (now : ℕ) (key : Method → Result String)
      → jwt.sign_hs256 secret c ≡ ok token
      → key hmac ≡ ok secret
      → now < c.expires_at
      → jwt.parse_with_claims now token key ≡ ok (record { claims = some c; valid = true })
  pub parse_in_time :
      (secret : String) (c : Claims) (token : String) (now : ℕ) (key : Method → Result String)
      (t : Token)
      → jwt.sign_hs256 secret c ≡ ok token
      → jwt.parse_with_claims now token key ≡ ok t
      → now < c.expires_at
  pub signed_ne_empty :
      (secret : String) (c : Claims) (token : String)
      → jwt.sign_hs256 secret c ≡ ok token
      → token ≢ ""

module _ (jwt : Jwt) (laws : JwtLaws jwt) where
  -- A login lasts until the token expires: a request that carries a generated token before its
  -- expiry reaches the handler with the user, the name and the role that were logged in.
  pub session_passes :
      {B S : Type 0} (m : Manager) (t t' now : ℕ) (user_id username role token : String)
      (next : Handler B S) (r : Request B) (s : S)
      → generate jwt m t t' user_id username role ≡ ok token
      → now < (claims_for jwt m t t' user_id username role).expires_at
      → let sent = set_header "Authorization" ("Bearer " ++ token) r in
        middleware jwt m now next [] fresh sent s
        ≡ next fresh (with_claims (claims_for jwt m t t' user_id username role) sent) s
  unfolding middleware validate generate key_for role_refused
  session_passes m t t' now user_id username role token next r s made early =
      let c = claims_for jwt m t t' user_id username role in
      rw (extract_token-bearer r token) (
        ground (
          arith,
          eq_iff token "",
          laws.signed_ne_empty m.secret c token made,
          laws.parse_signed m.secret c token now (key_for m) made refl early,
        ))

  -- From its expiry on a generated token is worth nothing: the answer is 401 and the handler does
  -- not run.
  pub expired_refused :
      {B S : Type 0} (m : Manager) (t t' now : ℕ) (user_id username role token : String)
      (next : Handler B S) (roles : List String) (r : Request B) (s : S)
      → generate jwt m t t' user_id username role ≡ ok token
      → (claims_for jwt m t t' user_id username role).expires_at ≤ now
      → let sent = set_header "Authorization" ("Bearer " ++ token) r in
        let (w', s') = middleware jwt m now next roles fresh sent s in (status w' ≡ 401) × (s' ≡ s)
  unfolding middleware validate generate
  expired_refused m t t' now user_id username role token next roles r s made late =
      let c = claims_for jwt m t t' user_id username role in
      rw (extract_token-bearer r token)
        (elim (Result-cases (jwt.parse_with_claims now token (key_for m))) [
          | inl (parsed, e) ↦
              let early : now < c.expires_at =
                laws.parse_in_time m.secret c token now (key_for m) parsed made e in
              absurd (omega arith)
          | inr (message, e) ↦ ground (arith, eq_iff token "")
        ])

-- A token that was signed by any method but HMAC never gets the key, so nothing validates it that
-- relies on the key function.
pub key_for_hmac_only :
    (m : Manager) (method : Method) (key : String)
    → key_for m method ≡ ok key
    → (method ≡ hmac) × (key ≡ m.secret)
unfolding key_for
key_for_hmac_only m method key h = ground arith
