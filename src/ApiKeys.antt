-- ===== src/ApiKeys.antt =====
-- internal/apikeys: the store of API keys over the database, and the middleware that takes a key or
-- a token. SHA-256, random bytes and the calendar are parameters, and so is the clock.
pub mod Lifecycle
pub mod Combined
mod Examples
use btrfs_snapah_pow.Base.{
  ℕ, ◌+◌, ◌/◌, ◌%◌, String, ◌++◌, ◌==◌, Bool, true, false, not, ◌&&◌, Option, none, some, List, [],
  ◌∷◌, zero, suc, Result, ok, err, is_empty, has_prefix, trim_prefix, take, ltb, if◌then◌else◌,
}
use Prim.Native.String
use btrfs_snapah_pow.Base.Int.{is_positive}
use btrfs_snapah_pow.Http.{Handler, Request, Json, get, set, set_header, write, write_header}
use btrfs_snapah_pow.Auth.{Jwt, Manager, middleware}
use btrfs_snapah_pow.Storage.Models.{ApiKeyRecord}
use btrfs_snapah_pow.Storage.Gorm.{Gorm}
use btrfs_snapah_pow.Storage.Db.{
  wrap, save_api_key, list_api_keys, get_api_key_by_hash, revoke_api_key, update_api_key_last_used,
}

-- What `Generate` and `Validate` call of Go's crypto and time packages. `sha256` gives 32 bytes;
-- `add_days` is `AddDate(0, 0, days)`.
pub record Crypto : Type 0 where
  pub sha256 : String → List ℕ
  pub add_days : ℕ → ℕ → ℕ

hex_digits : List String
hex_digits =
    "0" ∷ "1" ∷ "2" ∷ "3" ∷ "4" ∷ "5" ∷ "6" ∷ "7" ∷ "8" ∷ "9" ∷ "a" ∷ "b" ∷ "c" ∷ "d" ∷ "e" ∷ "f"
    ∷ []

nth : List String → ℕ → String
nth [] n = ""
nth (d ∷ ds) zero = d
nth (d ∷ ds) (suc n) = nth ds n

-- `hex.EncodeToString`
unfoldable pub hex : List ℕ → String
unfolding nth hex_digits
hex [] = ""
hex (b ∷ bytes) = nth hex_digits (b / 16 % 16) ++ (nth hex_digits (b % 16) ++ hex bytes)

-- `s[:n]` of an ASCII text with at least `n` characters
unfoldable pub first_chars : ℕ → String → String
first_chars zero s = ""
first_chars (suc n) String.[] = ""
first_chars (suc n) (String.◌∷◌ c s) = String.◌∷◌ c (first_chars n s)

unfoldable pub plaintext_of : List ℕ → String
plaintext_of raw = "spow_" ++ hex raw

module _ (crypto : Crypto) (g : Gorm) where
  unfoldable pub hash_of : String → String
  hash_of plaintext = hex (crypto.sha256 plaintext)

  -- the record of `Generate`, created at `now`; `now'` is the reading for the expiry
  unfoldable pub key_record : String → ℕ → ℕ → String → String → ℕ → ApiKeyRecord
  key_record plaintext now now' name role expires_days = record {
    id = hex (take 8 (crypto.sha256 plaintext));
    name = name;
    key_hash = hash_of plaintext;
    prefix = first_chars 12 plaintext;
    role = role;
    active = true;
    created_at = now;
    expires_at =
        if is_positive expires_days then some (crypto.add_days now' expires_days) else none;
    last_used_at = none;
  }

  generated :
      String → ApiKeyRecord → g.Conn × Result (Unit {0}) → g.Conn × Result (String × ApiKeyRecord)
  generated plaintext rec (db, ok _) = (db, ok (plaintext, rec))
  generated plaintext rec (db, err e) = (db, err ("guardar key: " ++ e))

  -- `raw` is what `rand.Read` filled the 32 bytes with, or its error.
  unfoldable pub generate :
      Result (List ℕ)
      → ℕ
      → ℕ
      → String
      → String
      → ℕ
      → g.Conn
      → g.Conn × Result (String × ApiKeyRecord)
  unfolding generated
  generate raw now now' name role expires_days db = elim raw [
    | err e ↦ (db, err ("generar bytes: " ++ e))
    | ok bytes ↦
        let plaintext = plaintext_of bytes in
        let rec = key_record plaintext now now' name role expires_days in
        generated plaintext rec (save_api_key g rec db)
  ]

  -- `k.ExpiresAt != nil && time.Now().After(*k.ExpiresAt)`
  abbrev pub is_expired : ℕ → Option ℕ → Bool
  is_expired now none = false
  is_expired now (some t) = ltb t now

  validated : ℕ → ℕ → g.Conn → Result ApiKeyRecord → g.Conn × Option ApiKeyRecord
  validated now now' db (err e) = (db, none)
  validated now now' db (ok k) =
      if is_expired now k.expires_at
      then (db, none)
      else ((update_api_key_last_used g k.id now' db).0, some k)

  -- `Validate`, with the two clock readings
  unfoldable pub validate : ℕ → ℕ → String → g.Conn → g.Conn × Option ApiKeyRecord
  unfolding validated
  validate now now' plaintext db =
      validated now now' db (get_api_key_by_hash g (hash_of plaintext) db)

  unfoldable pub list : g.Conn → Result (List ApiKeyRecord)
  list db = list_api_keys g db

  abbrev succeeded : Result (Unit {0}) → Bool
  succeeded (ok _) = true
  succeeded (err e) = false

  unfoldable pub revoke : String → g.Conn → g.Conn × Bool
  revoke id db = let (db', r) = revoke_api_key g id db in (db', succeeded r)

  -- The key that a request carries: its own header, or a bearer token of the form of a key.
  unfoldable pub raw_key : {B : Type 0} → Request B → String
  raw_key r =
      let bearer = get "Authorization" r.header in
      let api_key = get "X-API-Key" r.header in
      if is_empty api_key && has_prefix bearer "Bearer spow_"
      then trim_prefix bearer "Bearer "
      else api_key

  -- The internal headers that hand a key's owner to the next handler.
  unfoldable pub with_key : {B : Type 0} → ApiKeyRecord → Request B → Request B
  with_key k r =
      set_header "X-User-Role" k.role
        (set_header "X-Username" k.name (set_header "X-User-ID" k.id r))

  key_checked : {B : Type 0} → Handler B g.Conn → g.Conn × Option ApiKeyRecord → Handler B g.Conn
  key_checked next (db, none) w r _ = (
    write (Json.text "{\"error\":\"API key invalida o expirada\"}")
        (write_header 401 (set "Content-Type" "application/json" w)),
    db,
  )
  key_checked next (db, some k) w r _ = next w (with_key k r) db

  -- `CombinedMiddleware`
  unfoldable pub combined_middleware :
      {B : Type 0} → Jwt → Manager → ℕ → ℕ → Handler B g.Conn → Handler B g.Conn
  unfolding key_checked
  combined_middleware jwt m now now' next w r db =
      if not (is_empty (raw_key r))
      then key_checked next (validate now now' (raw_key r) db) w r db
      else middleware jwt m now next [] w r db
