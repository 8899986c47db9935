-- ===== src/Tls.antt =====
-- internal/tlsconfig/tls.go. Files and certificates are the parameter `Files`: a key pair `K` from two
-- files, the bytes `B` of a file, and a pool `P` of the certificates in them. Reading does not change
-- the file system, so its state `W` is an argument.
mod Examples
use btrfs_snapah_pow.Base.{
  ℕ, String, ◌++◌, Bool, true, false, Option, none, some, List, [], ◌∷◌, Result, ok, err, ◌>>=◌,
  ◌≡◌, refl, inl, inr, Result-cases, Option-cases,
}

pub record Files (W K B P : Type 0) : Type 0 where
  pub load_x509_key_pair : String → String → W → Result K
  pub read_file : String → W → Result B
  -- the pool of the certificates in a text, if there are any
  pub append_certs_from_pem : B → Option P
  -- `os.Stat` says that there is no such file
  pub is_not_exist : String → W → Bool

-- `tls.Config`, as far as the program sets it
pub record Config (K P : Type 0) : Type 0 where
  pub certificates : List K
  pub client_cas : Option P
  pub root_cas : Option P
  pub require_and_verify_client_cert : Bool
  pub min_version : ℕ

-- `tls.VersionTLS13`
abbrev pub version_tls13 : ℕ
version_tls13 = 772

module _ {W K B P : Type 0} (files : Files W K B P) where
  abbrev wrapped : {A : Type 0} → String → Result A → Result A
  wrapped message (ok a) = ok a
  wrapped message (err e) = err (message ++ e)

  abbrev or_invalid : Option P → Result P
  or_invalid none = err "CA inválido"
  or_invalid (some pool) = ok pool

  unfoldable pub server_tls : String → String → String → W → Result (Config K P)
  server_tls cert_file key_file ca_file w = do
    cert ← wrapped "cargar cert servidor: " (files.load_x509_key_pair cert_file key_file w)
    ca ← wrapped "leer CA: " (files.read_file ca_file w)
    pool ← or_invalid (files.append_certs_from_pem ca)
    ok record {
      certificates = cert ∷ [];
      client_cas = some pool;
      root_cas = none;
      require_and_verify_client_cert = true;
      min_version = version_tls13;
    }

  unfoldable pub client_tls : String → String → String → W → Result (Config K P)
  client_tls cert_file key_file ca_file w = do
    cert ← wrapped "cargar cert agente: " (files.load_x509_key_pair cert_file key_file w)
    ca ← wrapped "leer CA: " (files.read_file ca_file w)
    pool ← or_invalid (files.append_certs_from_pem ca)
    ok record {
      certificates = cert ∷ [];
      client_cas = none;
      root_cas = some pool;
      require_and_verify_client_cert = false;
      min_version = version_tls13;
    }

  -- the loop of `CertsExist`
  all_exist : List String → W → Bool
  all_exist [] w = true
  all_exist (f ∷ fs) w =
      let rest = all_exist fs w in elim (files.is_not_exist f w) [ true ↦ false | false ↦ rest ]

  unfoldable pub certs_exist : String → String → String → W → Bool
  unfolding all_exist
  certs_exist cert_file key_file ca_file w = all_exist (cert_file ∷ key_file ∷ ca_file ∷ []) w

  -- What one side presents and what it trusts, from the results of the three readings.
  abbrev pub Mutual : Result (Config K P) → Result (Config K P) → Type 0
  Mutual (ok server) (ok client) =
      (server.client_cas ≡ client.root_cas)
      × (server.certificates ≡ client.certificates)
      × (server.require_and_verify_client_cert ≡ true)
      × (server.min_version ≡ version_tls13)
      × (client.min_version ≡ version_tls13)
  Mutual (err e) (err e') = Unit
  Mutual _ _ = ⊥

  -- From the same three files the server and the agent get configurations that fit, or neither does:
  -- the server demands a certificate of the pool that the agent trusts, and both want TLS 1.3.
  pub server_tls-client_tls :
      (cert_file key_file ca_file : String) (w : W)
      → Mutual (server_tls cert_file key_file ca_file w) (client_tls cert_file key_file ca_file w)
  unfolding server_tls client_tls
  server_tls-client_tls cert_file key_file ca_file w =
      elim (Result-cases (files.load_x509_key_pair cert_file key_file w)) [
        | inr (e, no_pair) ↦ rw no_pair tt
        | inl (pair, paired) ↦ rw paired (elim (Result-cases (files.read_file ca_file w)) [
          | inr (e, unread) ↦ rw unread tt
          | inl (bytes, read) ↦ rw read (elim (Option-cases (files.append_certs_from_pem bytes)) [
            | inl no_pool ↦ rw no_pool tt
            | inr (pool, pooled) ↦ rw pooled (refl, refl, refl, refl, refl)
          ])
        ])
      ]
