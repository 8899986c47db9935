-- ===== src/Base/Lists.antt =====
-- Lists measured by native numbers, and predicates on all their elements.
use Prim.Native.Nat.{ℕ, zero, suc, ◌+◌, ◌-◌, ◌≤◌}
use mathlib.Core.Path.{◌≡◌, refl, subst}
use mathlib.Core.Bool.{Bool, true, false, ◌||◌}
use mathlib.Core.Logic.{◌⊎◌, inl, inr}
use mathlib.Core.Option.{Option, none, some}
use mathlib.Core.List.{List, [], ◌∷◌, ◌++◌, map}
use native.Mathlib.Omega.{arith}
use btrfs_snapah_pow.Base.Tests.{if◌then◌else◌, Bool-cases}

module _ {ℓ} {A : Type ℓ} where
  abbrev pub length : List A → ℕ
  length [] = 0
  length (x ∷ xs) = suc (length xs)

  abbrev pub take : ℕ → List A → List A
  take zero xs = []
  take (suc n) [] = []
  take (suc n) (x ∷ xs) = x ∷ take n xs

  abbrev pub drop : ℕ → List A → List A
  drop zero xs = xs
  drop (suc n) [] = []
  drop (suc n) (x ∷ xs) = drop n xs

  -- The sublist of the elements that pass a Boolean test.
  abbrev pub keep : (A → Bool) → List A → List A
  keep p [] = []
  keep p (x ∷ xs) = let rest = keep p xs in if p x then x ∷ rest else rest

  abbrev pub any : (A → Bool) → List A → Bool
  any p [] = false
  any p (x ∷ xs) = p x || any p xs

  pub length-append : (xs ys : List A) → length (xs ++ ys) ≡ length xs + length ys
  length-append [] ys = omega arith
  length-append (x ∷ xs) ys = omega (arith, length-append xs ys)

  pub length-take : (n : ℕ) (xs : List A) → n ≤ length xs → length (take n xs) ≡ n
  length-take zero xs h = refl
  length-take (suc n) [] h = omega arith
  length-take (suc n) (x ∷ xs) h = omega (arith, length-take n xs (omega arith))

  pub length-drop : (n : ℕ) (xs : List A) → length (drop n xs) ≡ length xs - n
  length-drop zero xs = omega arith
  length-drop (suc n) [] = omega arith
  length-drop (suc n) (x ∷ xs) = omega (arith, length-drop n xs)

  pub take-append-drop : (n : ℕ) (xs : List A) → take n xs ++ drop n xs ≡ xs
  take-append-drop zero xs = refl
  take-append-drop (suc n) [] = refl
  take-append-drop (suc n) (x ∷ xs) = rw (take-append-drop n xs)

module _ {ℓ κ} {A : Type ℓ} (P : A → Type κ) where
  -- Every element satisfies `P`.
  abbrev pub All : List A → Type κ
  All [] = Unit
  All (x ∷ xs) = P x × All xs

module _ {A : Type 0} where
  -- `x` stands somewhere in the list.
  abbrev pub Member : A → List A → Type 0
  Member x [] = ⊥
  Member x (y ∷ ys) = (y ≡ x) ⊎ Member x ys

  -- the first element that passes the test
  abbrev pub find_first : (A → Bool) → List A → Option A
  find_first p [] = none
  find_first p (x ∷ xs) = let rest = find_first p xs in if p x then some x else rest

  pub find_first-Member :
      (p : A → Bool) (xs : List A) (x : A) → find_first p xs ≡ some x → (p x ≡ true) × Member x xs
  find_first-Member p [] x h = cc
  find_first-Member p (y ∷ ys) x h = ground (arith, find_first-Member p ys x)

  -- a test that some member passes finds something
  pub find_first_found :
      (p : A → Bool) (xs : List A) (x : A)
      → Member x xs
      → p x ≡ true
      → (y : A) × (find_first p xs ≡ some y)
  find_first_found p [] x m h = absurd m
  find_first_found p (y ∷ ys) x m h = elim (Bool-cases (p y)) [
    | inl found ↦ (y, rw found)
    | inr other ↦ elim m [
      | inl same ↦ cc
      | inr later ↦ let (z, e) = find_first_found p ys x later h in (z, rw other e)
    ]
  ]

  pub Member-append : (x : A) (xs ys : List A) → Member x (xs ++ ys) → Member x xs ⊎ Member x ys
  Member-append x [] ys m = inr m
  Member-append x (z ∷ xs) ys m = elim m [
    | inl here ↦ inl (inl here)
    | inr later ↦ elim (Member-append x xs ys later) [
      | inl left ↦ inl (inr left)
      | inr right ↦ inr right
    ]
  ]

  pub Member-concat : (x : A) (xs : List A) → Member x (xs ++ x ∷ [])
  Member-concat x [] = inl refl
  Member-concat x (z ∷ xs) = inr (Member-concat x xs)

  pub Member-keep :
      (p : A → Bool) (x : A) (xs : List A) → Member x (keep p xs) → (p x ≡ true) × Member x xs
  Member-keep p x [] m = absurd m
  Member-keep p x (y ∷ ys) m = elim (Bool-cases (p y)) [
    | inl good ↦
        let m' : (y ≡ x) ⊎ Member x (keep p ys) = rw good at m in
        elim m' [
          | inl here ↦ (subst (λ z. p z ≡ true) here good, inl here)
          | inr later ↦ let (ok, k) = Member-keep p x ys later in (ok, inr k)
        ]
    | inr bad ↦
        let m' : Member x (keep p ys) = rw bad at m in
        let (ok, k) = Member-keep p x ys m' in (ok, inr k)
  ]

module _ {A B : Type 0} where
  -- a member of a mapped list is the image of a member
  pub Member-map :
      (f : A → B) (y : B) (xs : List A) → Member y (map f xs) → (x : A) × (f x ≡ y) × Member x xs
  Member-map f y [] m = absurd m
  Member-map f y (x ∷ xs) m = elim m [
    | inl here ↦ (x, here, inl refl)
    | inr later ↦ let (z, e, k) = Member-map f y xs later in (z, e, inr k)
  ]
