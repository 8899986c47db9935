-- ===== src/Btrfs/Stream.antt =====
-- `SendSnapshot` of internal/btrfs/btrfs.go under two commands that differ in the stream alone.
use btrfs_snapah_pow.Base.{
  ◌≡◌, refl, String, Option, none, some, List, [], ◌∷◌, not, is_empty, if◌then◌else◌, Result, ok,
  err,
}
use btrfs_snapah_pow.Btrfs.{Exec, Outcome, checked, sent, send_snapshot}

-- Both are values, or both are errors with the same text.
abbrev pub SameVerdict : {A : Type 0} → Result A → Result A → Type 0
SameVerdict (ok _) (ok _) = Unit
SameVerdict (err e) (err e') = e ≡ e'
SameVerdict _ _ = ⊥

checked-SameVerdict :
    {A : Type 0} (message output : String) (e : Option String) (a b : A)
    → SameVerdict (checked message e output a) (checked message e output b)
checked-SameVerdict message output none a b = tt
checked-SameVerdict message output (some e) a b = refl

-- Two outcomes that agree in all but the standard output.
abbrev AgreeOutcome : Outcome → Outcome → Type 0
AgreeOutcome o o' = (o.error ≡ o'.error) × (o.stderr ≡ o'.stderr)

module _ {W : Type 0} where
  -- Two commands that change the state alike, and fail alike.
  abbrev pub Alike : Exec W → Exec W → Type 0
  Alike exec exec' =
      (args : List String) (input : String) (w : W)
      → ((exec.run args input w).0 ≡ (exec'.run args input w).0)
        × AgreeOutcome (exec.run args input w).1 (exec'.run args input w).1

  sent-SameVerdict :
      (exec exec' : Exec W) (x y : W × Outcome)
      → x.0 ≡ y.0
      → AgreeOutcome x.1 y.1
      → ((sent exec x).0 ≡ (sent exec' y).0) × SameVerdict (sent exec x).1 (sent exec' y).1
  sent-SameVerdict exec exec' (w, o) (w', o') h agree =
      (h, rw (agree.0, agree.1) (checked-SameVerdict "btrfs send failed: " o'.stderr o'.error _ _))

  pub send_snapshot-SameVerdict :
      (exec exec' : Exec W) (path parent_path : String) (w : W)
      → Alike exec exec'
      → ((send_snapshot exec path parent_path w).0 ≡ (send_snapshot exec' path parent_path w).0)
        × SameVerdict
            (send_snapshot exec path parent_path w).1
            (send_snapshot exec' path parent_path w).1
  unfolding send_snapshot
  send_snapshot-SameVerdict exec exec' path parent_path w alike =
      let args =
        "send"
        ∷ (if not (is_empty parent_path) then "-p" ∷ parent_path ∷ path ∷ [] else path ∷ []) in
      let (same, agree) = alike args "" w in
      sent-SameVerdict exec exec' (exec.run args "" w) (exec'.run args "" w) same agree
