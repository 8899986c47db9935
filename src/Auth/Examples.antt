-- ===== src/Auth/Examples.antt =====
-- Tokens and users at concrete inputs.
use btrfs_snapah_pow.Base.{
  ℕ, ◌+◌, ◌≡◌, refl, ◌++◌, ◌==◌, [], ◌∷◌, lookup, insert, ok, err, arith, eq_iff, if◌then◌else◌,
  strip,
}
use btrfs_snapah_pow.Http.{Handler, Request, fresh, status, set_header, get, write, Json}
use btrfs_snapah_pow.Auth.{
  claims_for, generate, key_for, validate, extract_token, with_claims, middleware,
}
use btrfs_snapah_pow.Auth.Gate.{Gated, middleware-Gated, with_claims_identity, role_not_listed}
use btrfs_snapah_pow.Auth.Tokens.{session_passes, expired_refused}
use btrfs_snapah_pow.Auth.Users.{add, authenticate, new_user, authenticate-add}
use btrfs_snapah_pow.Auth.Demo.{
  demo, is_demo, demo_sign, demo_parse_key, demo_jwt, demo_laws, manager, plain_bcrypt,
}

-- A handler that answers the role it reads, and counts its calls.
abbrev show_role : Handler ℕ ℕ
show_role w r s = (write (Json.str (get "X-User-Role" r.header)) w, s + 1)

abbrev bare : Request ℕ
bare = record { method = "GET"; remote_addr = "h"; header = []; query = []; body = 0 }

generated : generate demo_jwt manager 5 6 "u1" "ana" "operator" ≡ ok "t"
unfolding generate claims_for demo_sign is_demo
generated = refl

session_passes_run :
    let sent = set_header "Authorization" ("Bearer " ++ "t") bare in
    middleware demo_jwt manager 7 show_role [] fresh sent 0
    ≡ show_role fresh (with_claims (claims_for demo_jwt manager 5 6 "u1" "ana" "operator") sent) 0
unfolding claims_for
session_passes_run =
    session_passes demo_jwt demo_laws manager 5 6 7 "u1" "ana" "operator" "t" show_role bare 0
      generated (omega arith)

expired_refused_example :
    let sent = set_header "Authorization" ("Bearer " ++ "t") bare in
    let (w', s') = middleware demo_jwt manager 86400000000005 show_role [] fresh sent 0 in
    (status w' ≡ 401) × (s' ≡ 0)
unfolding claims_for
expired_refused_example =
    expired_refused demo_jwt demo_laws manager 5 6 86400000000005 "u1" "ana" "operator" "t"
      show_role [] bare 0 generated (omega arith)

middleware-Gated_example :
    Gated demo_jwt manager 7 show_role [] bare 0
      (middleware demo_jwt manager 7 show_role [] fresh bare 0)
middleware-Gated_example = middleware-Gated demo_jwt manager 7 show_role [] bare 0

with_claims_identity_run :
    let forged = set_header "X-User-Role" "admin" bare in
    (get "X-User-ID" (with_claims demo forged).header ≡ "u1")
    × (get "X-Username" (with_claims demo forged).header ≡ "ana")
    × (get "X-User-Role" (with_claims demo forged).header ≡ "operator")
with_claims_identity_run = with_claims_identity demo (set_header "X-User-Role" "admin" bare)

role_not_listed_run :
    let sent = set_header "Authorization" ("Bearer " ++ "t") bare in
    (status (middleware demo_jwt manager 7 show_role ("admin" ∷ []) fresh sent 0).0 ≡ 403)
    × ((middleware demo_jwt manager 7 show_role ("admin" ∷ []) fresh sent 0).1 ≡ 0)
unfolding extract_token lookup insert strip validate key_for demo_parse_key
role_not_listed_run =
    role_not_listed demo_jwt manager 7 show_role "admin" []
      (set_header "Authorization" ("Bearer " ++ "t") bare) 0 demo (ground (arith, eq_iff "t" ""))
      refl refl

authenticate-add_run :
    authenticate plain_bcrypt (add plain_bcrypt [] 0 "1" "admin" "admin123" "admin").0 "admin" "x"
    ≡ (if "admin" == "admin"
        then (if "admin123" == "x"
            then ok (new_user plain_bcrypt "1" "admin" "admin123" "admin")
            else err "contraseña incorrecta")
        else authenticate plain_bcrypt [] "admin" "x")
authenticate-add_run =
    authenticate-add plain_bcrypt [] 0 "1" "admin" "admin123" "admin" "admin123" "admin" "x" refl
