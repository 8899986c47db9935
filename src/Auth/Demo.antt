-- ===== src/Auth/Demo.antt =====
-- Stand-ins for the JWT library, which signs one set of claims, and for bcrypt.
use btrfs_snapah_pow.Base.{
  ℕ, ◌<◌, ◌≡◌, String, ◌==◌, Bool, true, ◌&&◌, some, Result, ok, err, arith, eq_iff, nat_eq, ltb,
  if◌then◌else◌,
}
use btrfs_snapah_pow.Auth.{Claims, hmac, Token, Jwt, Manager}
use btrfs_snapah_pow.Auth.Tokens.{JwtLaws}
use btrfs_snapah_pow.Auth.Users.{Bcrypt}

abbrev pub demo : Claims
demo = record {
  user_id = "u1";
  username = "ana";
  role = "operator";
  expires_at = 86400000000005;
  issued_at = 6;
  issuer = "snapah-pow";
}

-- The stand-in signs the one set of claims `demo`, with the key "k", as the token "t".
unfoldable pub is_demo : Claims → Bool
is_demo c =
    c.user_id == "u1"
    && c.username == "ana"
    && c.role == "operator"
    && nat_eq c.expires_at 86400000000005
    && nat_eq c.issued_at 6
    && c.issuer == "snapah-pow"

is_demo-eq : (c : Claims) → is_demo c ≡ true → c ≡ demo
unfolding is_demo
is_demo-eq c h = ground (
  arith,
  eq_iff c.user_id "u1",
  eq_iff c.username "ana",
  eq_iff c.role "operator",
  eq_iff c.issuer "snapah-pow",
)

unfoldable pub demo_sign : String → Claims → Result String
demo_sign secret c = if secret == "k" && is_demo c then ok "t" else err "no key"

unfoldable pub demo_parse_key : ℕ → String → Result String → Result Token
demo_parse_key now token (err e) = err e
demo_parse_key now token (ok key) =
    if key == "k" && token == "t" && ltb now 86400000000005
    then ok (record { claims = some demo; valid = true })
    else err "bad token"

abbrev pub demo_jwt : Jwt
demo_jwt = record {
  numeric_date = λ t. t;
  sign_hs256 = demo_sign;
  parse_with_claims = λ now token key. demo_parse_key now token (key hmac);
}

signed_demo :
    (secret : String) (c : Claims) (token : String)
    → demo_sign secret c ≡ ok token
    → (secret ≡ "k") × (c ≡ demo) × (token ≡ "t")
unfolding demo_sign
signed_demo secret c token h = ground (arith, eq_iff secret "k", is_demo-eq c)

parsed_in_time :
    (now : ℕ) (token : String) (key : Result String) (t : Token)
    → demo_parse_key now token key ≡ ok t
    → now < 86400000000005
unfolding demo_parse_key
parsed_in_time now token (ok key) t h = ground arith
parsed_in_time now token (err e) t h = cc

pub demo_laws : JwtLaws demo_jwt
unfolding demo_parse_key
demo_laws = record {
  parse_signed = λ secret c token now key signed given early.
      let (e₁, e₂, e₃) = signed_demo secret c token signed in
      rw (given, demo_parse_key) (ground (arith, eq_iff secret "k", eq_iff token "t"));
  parse_in_time = λ secret c token now key t signed parsed.
      let (e₁, e₂, e₃) = signed_demo secret c token signed in
      rw e₂ (parsed_in_time now token (key hmac) t parsed);
  signed_ne_empty = λ secret c token signed empty.
      let (e₁, e₂, e₃) = signed_demo secret c token signed in ground (arith, eq_iff "t" "");
}

abbrev pub manager : Manager
manager = record { secret = "k"; expiry_hours = 24 }

-- The stand-in for bcrypt keeps the password as its own hash.
abbrev pub plain_bcrypt : Bcrypt
plain_bcrypt = record {
  generate_from_password = λ salt password. ok password;
  compare_hash_and_password = λ hash password. hash == password;
}
