-- ===== src/ApiKeys/Examples.antt =====
-- API keys over the ORM in memory, with a constant stand-in for SHA-256.
use btrfs_snapah_pow.Base.{
  ℕ, ◌+◌, ◌*◌, ◌≡◌, ◌≢◌, refl, String, true, false, none, some, [], ◌∷◌, Result, ok, err, Member,
}
use btrfs_snapah_pow.Http.{Handler, Request, Json, get, write}
use btrfs_snapah_pow.Auth.{Jwt, Manager}
use btrfs_snapah_pow.Storage.Models.{ApiKeyRecord}
use btrfs_snapah_pow.Storage.Db.{save_api_key, get_api_key_by_hash, revoke_api_key}
use btrfs_snapah_pow.Storage.Memory.{Memory, memory, memory_api_keys-laws, empty_memory}
use btrfs_snapah_pow.ApiKeys.{
  Crypto, hash_of, key_record, plaintext_of, hex, first_chars, generate, is_expired, validate,
  revoke,
}
use btrfs_snapah_pow.ApiKeys.Lifecycle.{validate_sound, validate-revoke, validate-generate}

abbrev crypto : Crypto
crypto = record { sha256 = λ s. 171 ∷ 18 ∷ []; add_days = λ t days. t + days * 86400000000000 }

abbrev made : Memory × Result (String × ApiKeyRecord)
made = generate crypto memory (ok (254 ∷ 1 ∷ [])) 1 2 "ci" "operator" 0 empty_memory

made_key : ApiKeyRecord
made_key = record {
  id = "ab12";
  name = "ci";
  key_hash = "ab12";
  prefix = "spow_fe01";
  role = "operator";
  active = true;
  created_at = 1;
  expires_at = none;
  last_used_at = none;
}

made_result : made.1 ≡ ok ("spow_fe01", made_key)
unfolding generate key_record hash_of plaintext_of hex first_chars save_api_key made_key
made_result = refl

validate-generate_example : (validate crypto memory 5 6 "spow_fe01" made.0).1 ≡ some made_key
unfolding memory_api_keys-laws
validate-generate_example =
    validate-generate crypto memory memory_api_keys-laws (ok (254 ∷ 1 ∷ [])) 1 2 5 6 "ci" "operator"
      0 empty_memory "spow_fe01" made_key made_result (λ k m. absurd m) (unfold made_key in refl)

made_accepted : (validate crypto memory 5 6 "spow_fe01" made.0).1 ≡ some made_key
unfolding memory_api_keys-laws
made_accepted =
    validate-generate crypto memory memory_api_keys-laws (ok (254 ∷ 1 ∷ [])) 1 2 5 6 "ci" "operator"
      0 empty_memory "spow_fe01" made_key made_result (λ k m. absurd m) (unfold made_key in refl)

validate_sound_example :
    Member made_key (made.0).api_keys
    × (made_key.active ≡ true)
    × (made_key.key_hash ≡ hash_of crypto memory "spow_fe01")
    × (is_expired crypto memory 5 made_key.expires_at ≡ false)
unfolding memory_api_keys-laws
validate_sound_example =
    validate_sound crypto memory memory_api_keys-laws 5 6 "spow_fe01" made.0 made_key made_accepted

abbrev keys : Memory
keys = record empty_memory {
  api_keys =
      record {
        id = "x";
        name = "a";
        key_hash = "00";
        prefix = "";
        role = "admin";
        active = true;
        created_at = 0;
        expires_at = none;
        last_used_at = none;
      }
      ∷ record {
        id = "y";
        name = "b";
        key_hash = "ab12";
        prefix = "";
        role = "viewer";
        active = true;
        created_at = 0;
        expires_at = none;
        last_used_at = none;
      }
      ∷ [];
}

abbrev key_y : ApiKeyRecord
key_y = record {
  id = "y";
  name = "b";
  key_hash = "ab12";
  prefix = "";
  role = "viewer";
  active = true;
  created_at = 0;
  expires_at = none;
  last_used_at = none;
}

validate-revoke_example : key_y.id ≢ "x"
unfolding revoke revoke_api_key validate get_api_key_by_hash hash_of hex
validate-revoke_example =
    validate-revoke crypto memory memory_api_keys-laws "x" "anything" 5 6 keys key_y refl refl

abbrev jwt : Jwt
jwt = record {
  numeric_date = λ t. t;
  sign_hs256 = λ secret c. err "unused";
  parse_with_claims = λ now token key. err "unused";
}

abbrev manager : Manager
manager = record { secret = "k"; expiry_hours = 24 }

abbrev show_role : Handler ℕ Memory
show_role w r s = (write (Json.str (get "X-User-Role" r.header)) w, s)

abbrev with_header : Request ℕ
with_header = record {
  method = "GET";
  remote_addr = "h";
  header = ("X-API-Key", "spow_fe01") ∷ [];
  query = [];
  body = 0;
}
