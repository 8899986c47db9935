-- ===== src/Auth/Gate.antt =====
-- `Middleware` of internal/auth/auth.go: who gets through, and as whom.
use btrfs_snapah_pow.Base.{
  ℕ, ◌≡◌, refl, ◌≢◌, ◌⊎◌, inl, inr, String, ◌++◌, ◌==◌, true, false, List, [], ◌∷◌, lookup-insert,
  eq_iff, Bool-cases, ok, err, Result-cases, arith, is_empty, any, strip-append,
}
use btrfs_snapah_pow.Http.{Handler, Request, Writer, fresh, status, get, set_header}
use btrfs_snapah_pow.Auth.Identity.{Carries, set_header-Carries}
use btrfs_snapah_pow.Auth.{
  Claims, Jwt, Manager, validate, extract_token, role_refused, with_claims, middleware,
}

-- What the middleware made of a request: without a token that validates it answered 401; with one
-- whose role is not listed, 403; or it called the next handler.
pub data Gated {B S : Type 0} (jwt : Jwt) (m : Manager) (now : ℕ) (next : Handler B S)
    (roles : List String) (r : Request B) (s : S) : Writer × S → Type 0 where
  unauthorized :
      {o : Writer × S}
      → (extract_token r ≡ "") ⊎ ((e : String) × (validate jwt m now (extract_token r) ≡ err e))
      → status o.0 ≡ 401
      → o.1 ≡ s
      → Gated jwt m now next roles r s o
  unlisted :
      {o : Writer × S} (c : Claims)
      → validate jwt m now (extract_token r) ≡ ok c
      → roles ≢ []
      → any (λ role. c.role == role) roles ≡ false
      → status o.0 ≡ 403
      → o.1 ≡ s
      → Gated jwt m now next roles r s o
  passed :
      {o : Writer × S} (c : Claims) (r' : Request B)
      → validate jwt m now (extract_token r) ≡ ok c
      → (roles ≡ []) ⊎ (any (λ role. c.role == role) roles ≡ true)
      → Carries c.user_id c.username c.role r r'
      → o ≡ next fresh r' s
      → Gated jwt m now next roles r s o

allowed_listed :
    (roles : List String) (role : String)
    → role_refused roles role ≡ false
    → (roles ≡ []) ⊎ (any (λ allowed. role == allowed) roles ≡ true)
unfolding role_refused
allowed_listed [] role h = inl refl
allowed_listed (first ∷ roles) role h = inr (ground arith)

refused_unlisted :
    (roles : List String) (role : String)
    → role_refused roles role ≡ true
    → (roles ≢ []) × (any (λ allowed. role == allowed) roles ≡ false)
unfolding role_refused
refused_unlisted [] role h = absurd cc
refused_unlisted (first ∷ roles) role h = (λ none. absurd cc, ground arith)

pub with_claims-Carries :
    {B : Type 0} (c : Claims) (r : Request B)
    → Carries c.user_id c.username c.role r (with_claims c r)
unfolding with_claims
with_claims-Carries c r = set_header-Carries c.user_id c.username c.role r

-- A handler behind the middleware runs only for a request with a token that validates and, where
-- roles are listed, with one of them. It then sees the request as it came, but with the user, the
-- name and the role of the token in the internal headers, whatever the client has put there. Only a
-- request without a token, or with one that does not validate, is answered 401, and only one whose
-- role is not among those listed 403; the state then stays as it was.
pub middleware-Gated :
    {B S : Type 0} (jwt : Jwt) (m : Manager) (now : ℕ) (next : Handler B S) (roles : List String)
    (r : Request B) (s : S)
    → Gated jwt m now next roles r s (middleware jwt m now next roles fresh r s)
unfolding middleware
middleware-Gated jwt m now next roles r s = elim (Bool-cases (is_empty (extract_token r))) [
  | inl missing ↦
      rw missing (unauthorized (inl ((eq_iff (extract_token r) "").0 missing)) refl refl)
  | inr given ↦ elim (Result-cases (validate jwt m now (extract_token r))) [
    | inr (e, bad) ↦ rw (given, bad) (unauthorized (inr (e, bad)) refl refl)
    | inl (c, good) ↦ elim (Bool-cases (role_refused roles c.role)) [
      | inl no_role ↦
          let (listed, absent) = refused_unlisted roles c.role no_role in
          rw (given, good, no_role) (unlisted c good listed absent refl refl)
      | inr allowed ↦
          rw (given, good, allowed)
            (passed c (with_claims c r) good (allowed_listed roles c.role allowed)
              (with_claims-Carries c r) refl)
    ]
  ]
]

-- The identity that the next handler reads is the token's, whatever the client has put into the
-- internal headers of its request.
pub with_claims_identity :
    {B : Type 0} (c : Claims) (r : Request B)
    → (get "X-User-ID" (with_claims c r).header ≡ c.user_id)
      × (get "X-Username" (with_claims c r).header ≡ c.username)
      × (get "X-User-Role" (with_claims c r).header ≡ c.role)
unfolding with_claims
with_claims_identity c r = (simp lookup-insert, simp lookup-insert, simp lookup-insert)

-- A route that lists roles refuses every token of another role with 403.
pub role_not_listed :
    {B S : Type 0} (jwt : Jwt) (m : Manager) (now : ℕ) (next : Handler B S) (first : String)
    (roles : List String) (r : Request B) (s : S) (c : Claims)
    → extract_token r ≢ ""
    → validate jwt m now (extract_token r) ≡ ok c
    → any (λ role. c.role == role) (first ∷ roles) ≡ false
    → (status (middleware jwt m now next (first ∷ roles) fresh r s).0 ≡ 403)
      × ((middleware jwt m now next (first ∷ roles) fresh r s).1 ≡ s)
unfolding middleware role_refused
role_not_listed jwt m now next first roles r s c given good absent =
    ground (arith, eq_iff (extract_token r) "")

-- A bearer header is read back as the token that was put into it.
pub extract_token-bearer :
    {B : Type 0} (r : Request B) (token : String)
    → extract_token (set_header "Authorization" ("Bearer " ++ token) r) ≡ token
unfolding extract_token
extract_token-bearer r token = simp (lookup-insert, strip-append)
