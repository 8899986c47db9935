-- ===== src/Base/Maps.antt =====
-- A Go map with string keys, as an association list. What the program reads of a map does not
-- depend on the order in which Go iterates over it, which is unspecified.
use Prim.Native.String.{String}
use text.Mathlib.Text.{◌==◌}
use text.Mathlib.TextEquality.{eq_iff}
use text.Mathlib.TextPositions.{eq_refl}
use mathlib.Core.Path.{◌≡◌, refl}
use mathlib.Core.Bool.{Bool}
use mathlib.Core.Option.{Option, none, some}
use mathlib.Core.List.{List, [], ◌∷◌}
use native.Mathlib.Omega.{arith}
use btrfs_snapah_pow.Base.Tests.{if◌then◌else◌}

abbrev pub GoMap : Type 0 → Type 0
GoMap V = List (String × V)

module _ {V : Type 0} where
  -- `v, ok := m[k]`
  unfoldable pub lookup : String → GoMap V → Option V
  lookup k [] = none
  lookup k (e ∷ m) = if e.0 == k then some e.1 else lookup k m

  -- `m[k] = v`
  unfoldable pub insert : String → V → GoMap V → GoMap V
  insert k v [] = (k, v) ∷ []
  insert k v (e ∷ m) = if e.0 == k then (k, v) ∷ m else e ∷ insert k v m

  -- `delete(m, k)`
  unfoldable pub erase : String → GoMap V → GoMap V
  erase k [] = []
  erase k (e ∷ m) = let rest = erase k m in if e.0 == k then rest else e ∷ rest

  pub lookup-insert :
      (k j : String) (v : V) (m : GoMap V)
      → lookup j (insert k v m) ≡ (if k == j then some v else lookup j m)
  unfolding lookup insert
  lookup-insert k j v [] = refl
  lookup-insert k j v (e ∷ m) =
      ground (arith, eq_iff k j, eq_iff e.0 k, eq_iff e.0 j, lookup-insert k j v m)

  pub lookup-erase :
      (k j : String) (m : GoMap V) → lookup j (erase k m) ≡ (if k == j then none else lookup j m)
  unfolding lookup erase
  lookup-erase k j [] = ground arith
  lookup-erase k j (e ∷ m) =
      ground (arith, eq_iff k j, eq_iff e.0 k, eq_iff e.0 j, lookup-erase k j m)

  pub lookup-insert_self : (k : String) (v : V) (m : GoMap V) → lookup k (insert k v m) ≡ some v
  lookup-insert_self k v m = rw (lookup-insert k k v m) (rw (eq_refl k))

  -- The loop that deletes each entry whose value fails `p`.
  unfoldable pub retain : (V → Bool) → GoMap V → GoMap V
  retain p [] = []
  retain p (e ∷ m) = let rest = retain p m in if p e.1 then e ∷ rest else rest

  -- No key occurs twice, as in every Go map.
  abbrev pub Unique : GoMap V → Type 0
  Unique [] = Unit
  Unique (e ∷ m) = (lookup e.0 m ≡ none) × Unique m

  abbrev pub where_true : (V → Bool) → Option V → Option V
  where_true p none = none
  where_true p (some v) = if p v then some v else none

  pub lookup-retain :
      (p : V → Bool) (k : String) (m : GoMap V)
      → Unique m
      → lookup k (retain p m) ≡ where_true p (lookup k m)
  unfolding lookup retain
  lookup-retain p k [] u = refl
  lookup-retain p k (e ∷ m) u = ground (arith, eq_iff e.0 k, lookup-retain p k m u.1)

  pub retain-Unique : (p : V → Bool) (m : GoMap V) → Unique m → Unique (retain p m)
  unfolding lookup retain
  retain-Unique p [] u = tt
  retain-Unique p (e ∷ m) u = ground (arith, lookup-retain p e.0 m u.1, retain-Unique p m u.1)

  pub insert-Unique : (k : String) (v : V) (m : GoMap V) → Unique m → Unique (insert k v m)
  unfolding lookup insert
  insert-Unique k v [] u = (refl, tt)
  insert-Unique k v (e ∷ m) u =
      ground (arith, eq_iff e.0 k, eq_iff k e.0, lookup-insert k e.0 v m, insert-Unique k v m u.1)
