-- ===== src/ApiKeys/Lifecycle.antt =====
-- internal/apikeys/apikeys.go: what a key is good for from `Generate` to `Revoke`.
use btrfs_snapah_pow.Base.{
  ℕ, ◌≡◌, refl, ap, sym, ◌∙◌, ◌≢◌, inl, inr, String, true, false, none, some, List, [], ◌∷◌, Result,
  ok, err, Member, Member-map, eq_iff, arith, if◌then◌else◌, Bool-cases,
}
use mathlib.Core.Path.{subst}
use btrfs_snapah_pow.Storage.Models.{ApiKeyRecord}
use btrfs_snapah_pow.Storage.Gorm.{Gorm, text, flag}
use btrfs_snapah_pow.Storage.Db.{save_api_key, get_api_key_by_hash, revoke_api_key}
use btrfs_snapah_pow.Storage.Laws.{TableLaws, api_key_model, satisfies, assign_all}
use btrfs_snapah_pow.ApiKeys.{
  Crypto, hash_of, key_record, plaintext_of, generate, generated, is_expired, validate, validated,
  revoke, succeeded,
}

satisfies_active :
    (hash : String) (k : ApiKeyRecord)
    → satisfies api_key_model (("key_hash", text hash) ∷ ("active", flag true) ∷ []) k ≡ true
    → (k.key_hash ≡ hash) × (k.active ≡ true)
satisfies_active hash k h = ground (arith, eq_iff k.key_hash hash)

-- What revoking makes of one row.
revoked_row : String → ApiKeyRecord → ApiKeyRecord
revoked_row id r =
    if satisfies api_key_model (("id", text id) ∷ []) r
    then assign_all api_key_model (("active", flag false) ∷ []) r
    else r

revoked_row_inactive :
    (id : String) (r k : ApiKeyRecord) → revoked_row id r ≡ k → k.active ≡ true → k.id ≡ id → ⊥
unfolding revoked_row
revoked_row_inactive id r k e active same = ground (arith, eq_iff r.id id, eq_iff k.id id)

module _ (crypto : Crypto) (g : Gorm) where
  succeeded_ok : (r : Result (Unit {0})) → succeeded crypto g r ≡ true → r ≡ ok tt
  succeeded_ok (ok _) h = refl
  succeeded_ok (err e) h = cc

  validated_accepts :
      (now now' : ℕ) (db : g.Conn) (r : Result ApiKeyRecord) (k : ApiKeyRecord)
      → (validated crypto g now now' db r).1 ≡ some k
      → (r ≡ ok k) × (is_expired crypto g now k.expires_at ≡ false)
  unfolding validated
  validated_accepts now now' db (err e) k h = cc
  validated_accepts now now' db (ok found) k h =
      elim (Bool-cases (is_expired crypto g now found.expires_at)) [
        | inl late ↦ let h' : none ≡ some k = rw late at h in cc
        | inr early ↦
            let h' : some found ≡ some k = rw early at h in
            let e : found ≡ k = cc in
            (ap ok e, subst (λ x. is_expired crypto g now x.expires_at ≡ false) e early)
      ]

  validated_early :
      (now now' : ℕ) (db : g.Conn) (k : ApiKeyRecord)
      → is_expired crypto g now k.expires_at ≡ false
      → (validated crypto g now now' db (ok k)).1 ≡ some k
  unfolding validated
  validated_early now now' db k early = rw (early, validated)

  generated_saves :
      (p q : String) (r rec : ApiKeyRecord) (o : g.Conn × Result (Unit {0}))
      → (generated crypto g p r o).1 ≡ ok (q, rec)
      → (p ≡ q) × (r ≡ rec) × (o.1 ≡ ok tt) × ((generated crypto g p r o).0 ≡ o.0)
  unfolding generated
  generated_saves p q r rec (db, ok _) h = ground arith
  generated_saves p q r rec (db, err e) h = cc

  -- A successful `Generate` has saved its record, which is active and has the hash of the text.
  generate_saves :
      (raw : Result (List ℕ)) (t t' : ℕ) (name role : String) (expires_days : ℕ) (db : g.Conn)
      (plaintext : String) (rec : ApiKeyRecord)
      → (generate crypto g raw t t' name role expires_days db).1 ≡ ok (plaintext, rec)
      → ((g.api_keys.save rec db).1 ≡ ok tt)
        × ((generate crypto g raw t t' name role expires_days db).0 ≡ (g.api_keys.save rec db).0)
        × (rec.active ≡ true)
        × (rec.key_hash ≡ hash_of crypto g plaintext)
  unfolding generate save_api_key
  generate_saves (err e) t t' name role days db plaintext rec h = cc
  generate_saves (ok bytes) t t' name role days db plaintext rec h =
      let p = plaintext_of bytes in
      let r = key_record crypto g p t t' name role days in
      let (same_text, same_rec, saved, state) =
        generated_saves p plaintext r rec (g.api_keys.save r db) h in
      (
        subst (λ x. (g.api_keys.save x db).1 ≡ ok tt) same_rec saved,
        state ∙ ap (λ x. (g.api_keys.save x db).0) same_rec,
        subst (λ x. x.active ≡ true) same_rec (unfold key_record in refl),
        subst (λ x. x.key_hash ≡ hash_of crypto g plaintext) same_rec
            (unfold key_record in ap (hash_of crypto g) same_text),
      )

module _ (crypto : Crypto) (g : Gorm) (laws : TableLaws g.api_keys api_key_model) where
  -- Whatever `Validate` accepts is a row of the table, active, with the hash of the text that was
  -- presented, and not expired.
  pub validate_sound :
      (now now' : ℕ) (plaintext : String) (db : g.Conn) (k : ApiKeyRecord)
      → (validate crypto g now now' plaintext db).1 ≡ some k
      → Member k (laws.rows db)
        × (k.active ≡ true)
        × (k.key_hash ≡ hash_of crypto g plaintext)
        × (is_expired crypto g now k.expires_at ≡ false)
  unfolding validate get_api_key_by_hash
  validate_sound now now' plaintext db k h =
      let hash = hash_of crypto g plaintext in
      let (found, early) =
        validated_accepts crypto g now now' db (get_api_key_by_hash g hash db) k h in
      let (good, mem) =
        laws.first_row (("key_hash", text hash) ∷ ("active", flag true) ∷ []) db k found in
      let (same, active) = satisfies_active hash k good in (mem, active, same, early)

  -- Once `Revoke` has reported success, nothing that is presented is accepted as that key.
  pub validate-revoke :
      (id plaintext : String) (now now' : ℕ) (db : g.Conn) (k : ApiKeyRecord)
      → (revoke crypto g id db).1 ≡ true
      → (validate crypto g now now' plaintext (revoke crypto g id db).0).1 ≡ some k
      → k.id ≢ id
  unfolding revoke revoke_api_key revoked_row
  validate-revoke id plaintext now now' db k done accepted same =
      let (mem, active, _, _) =
        validate_sound now now' plaintext (revoke crypto g id db).0 k accepted in
      let (touched, stored) =
        laws.updates_rows (("id", text id) ∷ []) (("active", flag false) ∷ []) db
          (succeeded_ok crypto g (revoke_api_key g id db).1 done) in
      let (r, e, _) = Member-map (revoked_row id) k (laws.rows db) (subst (Member k) stored mem) in
      revoked_row_inactive id r k e active same

  -- A key that `Generate` has returned is accepted until it expires, as the record that was stored,
  -- provided that no older row has the same hash.
  pub validate-generate :
      (raw : Result (List ℕ)) (t t' now now' : ℕ) (name role : String) (expires_days : ℕ)
      (db : g.Conn) (plaintext : String) (rec : ApiKeyRecord)
      → (generate crypto g raw t t' name role expires_days db).1 ≡ ok (plaintext, rec)
      → ((k : ApiKeyRecord) → Member k (laws.rows db) → k.key_hash ≢ hash_of crypto g plaintext)
      → is_expired crypto g now rec.expires_at ≡ false
      → (validate crypto g now now' plaintext
          (generate crypto g raw t t' name role expires_days db).0).1
        ≡ some rec
  unfolding validate get_api_key_by_hash
  validate-generate raw t t' now now' name role expires_days db plaintext rec made fresh early =
      let (saved, state, is_active, same_hash) =
        generate_saves crypto g raw t t' name role expires_days db plaintext rec made in
      let hash = hash_of crypto g plaintext in
      let db' = (generate crypto g raw t t' name role expires_days db).0 in
      let stored : Member rec (laws.rows db') =
        subst (λ c. Member rec (laws.rows c)) (sym state) (laws.save_stored rec db saved) in
      let fits : satisfies api_key_model (("key_hash", text hash) ∷ ("active", flag true) ∷ []) rec
          ≡ true =
        ground (arith, eq_iff rec.key_hash hash) in
      let (k, found) =
        laws.first_found (("key_hash", text hash) ∷ ("active", flag true) ∷ []) db' rec stored
          fits in
      let (good, mem) =
        laws.first_row (("key_hash", text hash) ∷ ("active", flag true) ∷ []) db' k found in
      let same : k ≡ rec =
        elim (laws.save_others rec k db saved (subst (λ c. Member k (laws.rows c)) state mem)) [
          | inl e ↦ e
          | inr old ↦ absurd (fresh k old (satisfies_active hash k good).0)
        ] in
      ap (λ r. (validated crypto g now now' db' r).1) (found ∙ ap ok same)
      ∙ validated_early crypto g now now' db' rec early
