-- ===== src/Auth/Identity.antt =====
-- What the middlewares of internal/auth/auth.go and internal/apikeys/middleware.go hand to the next
-- handler: the request as it came, but for the three internal headers.
use btrfs_snapah_pow.Base.{
  ◌≡◌, refl, ◌⊎◌, inl, inr, String, ◌==◌, Bool, true, ◌||◌, lookup, lookup-insert, Bool-cases,
  arith,
}
use btrfs_snapah_pow.Http.{Request, get, set_header}

abbrev pub internal : String → Bool
internal key = "X-User-ID" == key || "X-Username" == key || "X-User-Role" == key

-- `r'` is `r` with the identity in the internal headers, whatever `r` had there.
pub record Carries {B : Type 0} (id name role : String) (r r' : Request B) : Type 0 where
  pub user_id : get "X-User-ID" r'.header ≡ id
  pub username : get "X-Username" r'.header ≡ name
  pub user_role : get "X-User-Role" r'.header ≡ role
  pub others : (key : String) → (internal key ≡ true) ⊎ (lookup key r'.header ≡ lookup key r.header)
  pub method : r'.method ≡ r.method
  pub remote_addr : r'.remote_addr ≡ r.remote_addr
  pub query : r'.query ≡ r.query
  pub body : r'.body ≡ r.body

pub set_header-Carries :
    {B : Type 0} (id name role : String) (r : Request B)
    → Carries id name role r
        (set_header "X-User-Role" role (set_header "X-Username" name (set_header "X-User-ID" id r)))
set_header-Carries id name role r = record {
  user_id = simp lookup-insert;
  username = simp lookup-insert;
  user_role = simp lookup-insert;
  others = λ key. elim (Bool-cases (internal key)) [
    | inl own ↦ inl own
    | inr other ↦ inr (simp (lookup-insert) (ground arith))
  ];
  method = refl;
  remote_addr = refl;
  query = refl;
  body = refl;
}
