-- ===== src/Auth/Users.antt =====
-- internal/auth/users.go: the users in memory. `Bcrypt` is the password library; the hash that it
-- makes depends on a salt.
use btrfs_snapah_pow.Base.{
  ℕ, ◌≡◌, refl, String, ◌==◌, Bool, Option, none, some, [], GoMap, lookup, insert, lookup-insert,
  Result, ok, err, if◌then◌else◌, Bool-cases, inl, inr,
}

pub record Bcrypt : Type 0 where
  pub generate_from_password : ℕ → String → Result String
  pub compare_hash_and_password : String → String → Bool

pub record User : Type 0 where
  pub id : String
  pub username : String
  pub password_hash : String
  pub role : String

abbrev pub UserStore : Type 0
UserStore = GoMap User

abbrev pub new_user_store : UserStore
new_user_store = []

module _ (bcrypt : Bcrypt) where
  -- `Add`: the store, and the error if hashing fails.
  unfoldable pub add :
      UserStore → ℕ → String → String → String → String → UserStore × Result (Unit {0})
  add users salt id username password role = elim (bcrypt.generate_from_password salt password) [
    | err e ↦ (users, err e)
    | ok hash ↦ (
      insert username (record { id = id; username = username; password_hash = hash; role = role })
          users,
      ok tt,
    )
  ]

  authenticated : Option User → String → Result User
  authenticated none password = err "usuario no encontrado"
  authenticated (some user) password =
      if bcrypt.compare_hash_and_password user.password_hash password
      then ok user
      else err "contraseña incorrecta"

  unfoldable pub authenticate : UserStore → String → String → Result User
  unfolding authenticated
  authenticate users username password = authenticated (lookup username users) password

  -- `Get`
  unfoldable pub get_user : UserStore → String → Option User
  get_user users username = lookup username users

  -- The user that `Add` stores.
  abbrev pub new_user : String → String → String → String → User
  new_user id username hash role = record {
    id = id;
    username = username;
    password_hash = hash;
    role = role;
  }

  -- After a successful `Add`, logging in under that name means to present a password that fits the
  -- new hash, and gives the new user; logging in under any other name is as it was before.
  pub authenticate-add :
      (users : UserStore) (salt : ℕ) (id username password role hash other attempt : String)
      → bcrypt.generate_from_password salt password ≡ ok hash
      → authenticate (add users salt id username password role).0 other attempt ≡ (
          if username == other
          then (if bcrypt.compare_hash_and_password hash attempt
              then ok (new_user id username hash role)
              else err "contraseña incorrecta")
          else authenticate users other attempt)
  unfolding add authenticate
  authenticate-add users salt id username password role hash other attempt h =
      rw (h, add)
        (rw (lookup-insert username other (new_user id username hash role) users, authenticate)
          (elim (Bool-cases (username == other)) [
            | inl same ↦ rw same refl
            | inr apart ↦ rw apart refl
          ]))

  -- If hashing fails, `Add` reports it and the users stay as they were.
  pub add_failed :
      (users : UserStore) (salt : ℕ) (id username password role e : String)
      → bcrypt.generate_from_password salt password ≡ err e
      → add users salt id username password role ≡ (users, err e)
  unfolding add
  add_failed users salt id username password role e h = rw (h, add) refl
