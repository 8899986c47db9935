-- ===== src/ApiKeys/Combined.antt =====
-- internal/apikeys/middleware.go: `CombinedMiddleware`.
use btrfs_snapah_pow.Base.{ℕ, ◌≡◌, ◌≢◌, none, [], true, false, Member}
use btrfs_snapah_pow.Http.{Handler, Request, Writer, fresh, status}
use btrfs_snapah_pow.Auth.{Jwt, Manager}
use btrfs_snapah_pow.Auth.Gate.{Gated}
use btrfs_snapah_pow.Auth.Identity.{Carries}
use btrfs_snapah_pow.Storage.Laws.{TableLaws, api_key_model}
use btrfs_snapah_pow.Storage.Models.{ApiKeyRecord}
use btrfs_snapah_pow.Storage.Gorm.{Gorm}
use btrfs_snapah_pow.Storage.Db.{update_api_key_last_used}
use btrfs_snapah_pow.ApiKeys.{Crypto, hash_of, is_expired, validate, raw_key}

module _ (crypto : Crypto) (g : Gorm) (laws : TableLaws g.api_keys api_key_model) where
  -- The three ways of a request through the combined middleware: with no key it goes the way of
  -- the tokens; a key that is not accepted is answered 401; an accepted one, which is a row of the
  -- table that is active and has not expired, calls the next handler with the key's owner.
  pub data ByKey {B : Type 0} (jwt : Jwt) (m : Manager) (now now' : ℕ) (next : Handler B g.Conn)
      (r : Request B) (db : g.Conn) : Writer × g.Conn → Type 0 where
    by_token :
        {o : Writer × g.Conn}
        → raw_key crypto g r ≡ ""
        → Gated jwt m now next [] r db o
        → ByKey jwt m now now' next r db o
    rejected :
        {o : Writer × g.Conn}
        → raw_key crypto g r ≢ ""
        → (validate crypto g now now' (raw_key crypto g r) db).1 ≡ none
        → status o.0 ≡ 401
        → o.1 ≡ db
        → ByKey jwt m now now' next r db o
    accepted :
        {o : Writer × g.Conn} (k : ApiKeyRecord) (r' : Request B)
        → raw_key crypto g r ≢ ""
        → Member k (laws.rows db)
        → k.active ≡ true
        → k.key_hash ≡ hash_of crypto g (raw_key crypto g r)
        → is_expired crypto g now k.expires_at ≡ false
        → Carries k.id k.name k.role r r'
        → o ≡ next fresh r' (update_api_key_last_used g k.id now' db).0
        → ByKey jwt m now now' next r db o
