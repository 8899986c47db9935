-- ===== src/Cli/Forms.antt =====
-- The indices of the form and the menu of cmd/cli/main.go stay in range: nothing panics.
use btrfs_snapah_pow.Base.{
  ℕ, zero, suc, ◌+◌, ◌<◌, ◌≡◌, refl, ◌∙◌, ap, Bool, true, false, Option, none, some, List, [], ◌∷◌,
  nat_eq, length, if◌then◌else◌, arith,
}
use mathlib.Core.Option
use btrfs_snapah_pow.Cli.{
  Key, ctrl_c, esc, tab, up, down, enter, backspace, other, Widgets, Model, Cmd, menu_length,
  input_at, update_at, refocus, next_input, to_password, submit, type_key, update_login,
}

module _ {I T C : Type 0} (ui : Widgets I T C) where
  -- The form has its two inputs, one of them is the focused one, and the cursor is on the menu.
  pub record IsWellFormed (m : Model I T) : Type 0 where
    pub two_inputs : length m.inputs ≡ 2
    pub focused_in_range : m.focused < 2
    pub cursor_in_range : m.cursor < menu_length

  -- an answer that is one, of a well-formed model
  abbrev pub Safe : Option (Model I T × Option (Cmd C)) → Type 0
  Safe none = ⊥
  Safe (some (m, cmd)) = IsWellFormed m

  length-refocus : (i f : ℕ) (xs : List I) → length (refocus ui i f xs) ≡ length xs
  length-refocus i f [] = refl
  length-refocus i f (x ∷ xs) = ap suc (length-refocus (i + 1) f xs)

  input_in_range : (n : ℕ) (xs : List I) → n < length xs → (x : I) × (input_at n xs ≡ some x)
  input_in_range n [] h = absurd (omega arith)
  input_in_range zero (x ∷ xs) h = (x, refl)
  input_in_range (suc n) (x ∷ xs) h = input_in_range n xs (omega arith)

  update_in_range :
      (n : ℕ) (f : I → I) (xs : List I)
      → n < length xs
      → (ys : List I) × (update_at n f xs ≡ some ys) × (length ys ≡ length xs)
  update_in_range n f [] h = absurd (omega arith)
  update_in_range zero f (x ∷ xs) h = (f x ∷ xs, refl, refl)
  update_in_range (suc n) f (x ∷ xs) h =
      let (ys, e, l) = update_in_range n f xs (omega arith) in
      (x ∷ ys, ap (Option.map (◌∷◌ x)) e, ap suc l)

  next_input-IsWellFormed : (m : Model I T) → IsWellFormed m → IsWellFormed (next_input ui m)
  next_input-IsWellFormed m h = record {
    two_inputs = length-refocus 0 _ m.inputs ∙ h.two_inputs;
    focused_in_range = rw h.two_inputs (omega arith);
    cursor_in_range = h.cursor_in_range;
  }

  to_password-Safe : (m : Model I T) → IsWellFormed m → Safe (to_password ui m)
  unfolding to_password
  to_password-Safe m h =
      let (blurred, e, l) = update_in_range 0 ui.blur m.inputs (omega (arith, h.two_inputs)) in
      let (inputs, e', l') = update_in_range 1 ui.focus blurred (omega (arith, h.two_inputs, l)) in
      rw (e, e')
        (record {
          two_inputs = l' ∙ l ∙ h.two_inputs;
          focused_in_range = omega arith;
          cursor_in_range = h.cursor_in_range;
        })

  submit-Safe : (m : Model I T) → IsWellFormed m → Safe (submit ui m)
  unfolding submit
  submit-Safe m h =
      let (user, e) = input_in_range 0 m.inputs (omega (arith, h.two_inputs)) in
      let (pass, e') = input_in_range 1 m.inputs (omega (arith, h.two_inputs)) in
      rw (e, e')
        (record {
          two_inputs = h.two_inputs;
          focused_in_range = h.focused_in_range;
          cursor_in_range = h.cursor_in_range;
        })

  type_key-Safe : (k : Key) (m : Model I T) → IsWellFormed m → Safe (type_key ui k m)
  unfolding type_key
  type_key-Safe k m h =
      let inside : m.focused < length m.inputs = omega (arith, h.two_inputs, h.focused_in_range) in
      let (input, e) = input_in_range m.focused m.inputs inside in
      let (inputs, e', l) =
        update_in_range m.focused (λ x. (ui.update_input k x).0) m.inputs inside in
      rw (e, e')
        (record {
          two_inputs = l ∙ h.two_inputs;
          focused_in_range = h.focused_in_range;
          cursor_in_range = h.cursor_in_range;
        })

  pub either-Safe :
      (b : Bool) (x y : Option (Model I T × Option (Cmd C)))
      → Safe x
      → Safe y
      → Safe (if b then x else y)
  either-Safe true x y hx hy = hx
  either-Safe false x y hx hy = hy

  pub update_login-Safe : (k : Key) (m : Model I T) → IsWellFormed m → Safe (update_login ui k m)
  unfolding update_login
  update_login-Safe ctrl_c m h = h
  update_login-Safe esc m h = h
  update_login-Safe tab m h = next_input-IsWellFormed m h
  update_login-Safe down m h = next_input-IsWellFormed m h
  update_login-Safe enter m h =
      either-Safe (nat_eq m.focused 0) (to_password ui m) (submit ui m) (to_password-Safe m h)
        (submit-Safe m h)
  update_login-Safe up m h = type_key-Safe up m h
  update_login-Safe backspace m h = type_key-Safe backspace m h
  update_login-Safe (other s) m h = type_key-Safe (other s) m h
