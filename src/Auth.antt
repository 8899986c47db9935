-- ===== src/Auth.antt =====
-- internal/auth/auth.go: tokens and the middleware that checks them. The JWT library is the
-- parameter `Jwt`; a `time.Time` is a number of nanoseconds, and the clock is an argument.
pub mod Users
pub mod Gate
pub mod Identity
pub mod Tokens
pub mod Demo
mod Examples
use btrfs_snapah_pow.Base.{
  ℕ, ◌+◌, ◌<◌, ◌≡◌, String, ◌++◌, ◌==◌, Bool, true, false, not, ◌&&◌, Option, none, some, List, [],
  ◌∷◌, Result, ok, err, ◌>>=◌, is_empty, has_prefix, trim_prefix, if◌then◌else◌, any,
}
use btrfs_snapah_pow.Base.Int.{mul_int, add_duration, hour}
use btrfs_snapah_pow.Http.{
  Handler, Request, Writer, Json, get, set, set_header, write, write_header,
}

pub record Claims : Type 0 where
  pub user_id : String
  pub username : String
  pub role : String
  pub expires_at : ℕ
  pub issued_at : ℕ
  pub issuer : String

-- The type of a token's signing method, as the key function sees it.
pub data Method : Type 0 where
  hmac : Method
  other : String → Method

-- `jwt.Token` after parsing: `claims` is `none` where the type assertion to `*Claims` fails.
pub record Token : Type 0 where
  pub claims : Option Claims
  pub valid : Bool

-- What the program calls of the JWT library. `parse_with_claims` reads the clock.
pub record Jwt : Type 0 where
  pub numeric_date : ℕ → ℕ
  pub sign_hs256 : String → Claims → Result String
  pub parse_with_claims : ℕ → String → (Method → Result String) → Result Token

pub record Manager : Type 0 where
  pub secret : String
  pub expiry_hours : ℕ

unfoldable pub new_manager : String → ℕ → Manager
new_manager secret expiry_hours = record { secret = secret; expiry_hours = expiry_hours }

-- the claims of `Generate`; the clock is read twice
unfoldable pub claims_for : Jwt → Manager → ℕ → ℕ → String → String → String → Claims
claims_for jwt m now now' user_id username role = record {
  user_id = user_id;
  username = username;
  role = role;
  expires_at = jwt.numeric_date (add_duration now (mul_int m.expiry_hours hour));
  issued_at = jwt.numeric_date now';
  issuer = "snapah-pow";
}

unfoldable pub generate : Jwt → Manager → ℕ → ℕ → String → String → String → Result String
generate jwt m now now' user_id username role =
    jwt.sign_hs256 m.secret (claims_for jwt m now now' user_id username role)

-- The key function of `Validate`: only HMAC methods get the key.
unfoldable pub key_for : Manager → Method → Result String
key_for m hmac = ok m.secret
key_for m (other alg) = err ("método de firma inesperado: " ++ alg)

checked : Token → Result Claims
checked token = elim token.claims [
  | none ↦ err "token inválido"
  | some claims ↦ if token.valid then ok claims else err "token inválido"
]

unfoldable pub validate : Jwt → Manager → ℕ → String → Result Claims
unfolding checked
validate jwt m now token_str = do
  token ← jwt.parse_with_claims now token_str (key_for m)
  checked token

unfoldable pub extract_token : {B : Type 0} → Request B → String
extract_token r =
    let bearer = get "Authorization" r.header in
    if has_prefix bearer "Bearer " then trim_prefix bearer "Bearer " else get "token" r.query

-- `http.Error`
abbrev pub http_error : String → ℕ → Writer → Writer
http_error message code w = write (Json.text (message ++ "\n")) (
    write_header code
      (set "X-Content-Type-Options" "nosniff" (set "Content-Type" "text/plain; charset=utf-8" w)))

-- `len(roles) > 0` and the loop over the roles: does it refuse the claims?
unfoldable pub role_refused : List String → String → Bool
role_refused [] role = false
role_refused (r ∷ roles) role = not (any (λ allowed. role == allowed) (r ∷ roles))

-- The internal headers that hand the claims to the next handler.
unfoldable pub with_claims : {B : Type 0} → Claims → Request B → Request B
with_claims c r =
    set_header "X-User-Role" c.role
      (set_header "X-Username" c.username (set_header "X-User-ID" c.user_id r))

authorize : {B S : Type 0} → List String → Handler B S → Result Claims → Handler B S
authorize roles next (err e) w r s = (http_error "{\"error\":\"token inválido\"}" 401 w, s)
authorize roles next (ok c) w r s =
    if role_refused roles c.role
    then (http_error "{\"error\":\"permisos insuficientes\"}" 403 w, s)
    else next w (with_claims c r) s

unfoldable pub middleware :
    {B S : Type 0} → Jwt → Manager → ℕ → Handler B S → List String → Handler B S
unfolding authorize
middleware jwt m now next roles w r s =
    let token_str = extract_token r in
    if is_empty token_str
    then (http_error "{\"error\":\"token requerido\"}" 401 w, s)
    else authorize roles next (validate jwt m now token_str) w r s
