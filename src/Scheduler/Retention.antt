-- ===== src/Scheduler/Retention.antt =====
-- `applyRetention` of internal/scheduler/scheduler.go: which snapshots go.
use btrfs_snapah_pow.Base.{
  ℕ, zero, suc, ◌≤◌, ◌<◌, ◌≡◌, refl, inl, inr, List, [], ◌∷◌, ok, drop, length, length-drop, leb,
  All, arith, Bool-cases, ap, ◌∙◌,
}
use mathlib.Core.Option.{none}
use btrfs_snapah_pow.Strings.{split}
use btrfs_snapah_pow.Btrfs.{Exec, Outcome, SnapshotInfo, parse_list, list_snapshots}
use btrfs_snapah_pow.Btrfs.Listing.{IsUnread, parse_list_unread}
use btrfs_snapah_pow.Scheduler.{Policy, max_to_keep, delete_all, retained, apply_retention}

-- The deletion limit is at least one, whatever the policy says.
max_to_keep-pos : (p : Policy) → 0 < max_to_keep p
max_to_keep-pos p = ground arith

drop_all {ℓ} : {A : Type ℓ} (n : ℕ) (xs : List A) → length xs ≤ n → drop n xs ≡ []
drop_all zero [] h = refl
drop_all zero (x ∷ xs) h = absurd (omega arith)
drop_all (suc n) [] h = refl
drop_all (suc n) (x ∷ xs) h = drop_all n xs (omega arith)

module _ {W : Type 0} (exec : Exec W) where
  -- After a listing, retention deletes what stands behind the first `max_to_keep` entries, one by
  -- one and in the listing's order, and nothing else; of a listing that is not empty at least the
  -- first entry stays.
  pub apply_retention-suffix :
      (p : Policy) (w : W) (first : SnapshotInfo) (rest : List SnapshotInfo)
      → (list_snapshots exec p.subvolume_path w).1 ≡ ok (first ∷ rest)
      → (apply_retention exec p w
          ≡ delete_all exec
              (drop (max_to_keep p) (first ∷ rest))
              (list_snapshots exec p.subvolume_path w).0)
        × (length (drop (max_to_keep p) (first ∷ rest)) < length (first ∷ rest))
  unfolding apply_retention
  apply_retention-suffix p w first rest h =
      let snaps = first ∷ rest in
      (
        rw (h, retained)
            (elim (Bool-cases (leb (length snaps) (max_to_keep p))) [
              | inl few ↦
                  rw few
                    (rw (drop_all (max_to_keep p) snaps (ground arith)) (unfold delete_all in refl))
              | inr many ↦ rw many refl
            ]),
        omega (arith, max_to_keep-pos p, length-drop (max_to_keep p) snaps),
      )

-- The ids of a listing in ascending order, as the file system gives them out over time.
abbrev pub Ascending : List SnapshotInfo → Type 0
Ascending [] = Unit
Ascending (s ∷ snaps) = All (λ t. s.id < t.id) snaps × Ascending snaps

module _ {W : Type 0} (exec : Exec W) where
  -- the listing that retention asks for
  abbrev pub listing : Policy → W → W × Outcome
  listing p w = exec.run ("subvolume" ∷ "list" ∷ "-t" ∷ "-u" ∷ p.subvolume_path ∷ []) "" w

  listing_read :
      (p : Policy) (w : W)
      → (listing p w).1.error ≡ none
      → list_snapshots exec p.subvolume_path w
        ≡ ((listing p w).0, ok (parse_list (listing p w).1.combined p.subvolume_path))
  unfolding list_snapshots
  listing_read p w fine = rw fine refl

  retained_nothing : (p : Policy) (w : W) → retained exec p (w, ok []) ≡ w
  retained_nothing p w = elim (Bool-cases (leb 0 (max_to_keep p))) [
    | inl few ↦ rw few refl
    | inr many ↦ absurd (ground arith)
  ]

  -- Where every line of the command's listing begins like a header or has less than nine fields,
  -- retention deletes nothing: after the listing the state stays as it is.
  pub retention_inert :
      (p : Policy) (w : W)
      → (listing p w).1.error ≡ none
      → All IsUnread (split b'\n' (listing p w).1.combined)
      → apply_retention exec p w ≡ (listing p w).0
  unfolding apply_retention
  retention_inert p w fine unread =
      ap (retained exec p) (
        listing_read p w fine
        ∙ ap (λ l. ((listing p w).0, ok l))
            (parse_list_unread (listing p w).1.combined p.subvolume_path unread))
      ∙ retained_nothing p (listing p w).0
