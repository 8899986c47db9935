-- ===== src/Scheduler/Listed.antt =====
-- A cron that lists its entries, the newest first, and meets the laws.
use btrfs_snapah_pow.Base.{
  ℕ, ◌≤◌, ◌≡◌, refl, String, Option, none, some, List, [], ◌∷◌, Result, ok, err, length, nat_eq,
  if◌then◌else◌, arith,
}
use btrfs_snapah_pow.Strings.{fields}
use btrfs_snapah_pow.Scheduler.{Policy, Cron}
use btrfs_snapah_pow.Scheduler.Policies.{CronLaws}
use btrfs_snapah_pow.Scheduler.Defaults.{WantsSixFields}

abbrev pub Entries : Type 0
Entries = List (Option Policy)

-- the entry with a number: the oldest has number 0
unfoldable pub entry : ℕ → Entries → Option Policy
entry e [] = none
entry e (o ∷ c) = if nat_eq e (length c) then o else entry e c

unfoldable pub taken_out : ℕ → Entries → Entries
taken_out e [] = []
taken_out e (o ∷ c) =
    let rest = taken_out e c in if nat_eq e (length c) then none ∷ rest else o ∷ rest

unfoldable pub appended : String → Policy → Entries → Entries × Result ℕ
appended spec p c =
    if nat_eq (length (fields spec)) 6
    then (some p ∷ c, ok (length c))
    else (c, err "expected exactly 6 fields")

abbrev pub toy_cron : Cron Entries
toy_cron = record { start = []; add_func = appended; remove = taken_out; next = λ e c. 0 }

entry_beyond : (e : ℕ) (c : Entries) → length c ≤ e → entry e c ≡ none
unfolding entry
entry_beyond e [] h = refl
entry_beyond e (o ∷ c) h = ground (arith, entry_beyond e c)

length-taken_out : (e : ℕ) (c : Entries) → length (taken_out e c) ≡ length c
unfolding taken_out
length-taken_out e [] = refl
length-taken_out e (o ∷ c) = ground (arith, length-taken_out e c)

entry-taken_out :
    (i e : ℕ) (c : Entries) → entry e (taken_out i c) ≡ (if nat_eq i e then none else entry e c)
unfolding entry taken_out
entry-taken_out i e [] = ground arith
entry-taken_out i e (o ∷ c) = ground (arith, entry-taken_out i e c, length-taken_out i c)

pub toy_laws : CronLaws toy_cron
unfolding appended entry
toy_laws = record {
  live = entry;
  start_live = λ e. refl;
  add_live = λ spec p c id e h. ground arith;
  add_new = λ spec p c id h. entry_beyond id c (ground arith);
  add_failed = λ spec p c e m h. ground arith;
  remove_live = entry-taken_out;
}

pub toy_six : WantsSixFields toy_cron
unfolding appended
toy_six spec p c descriptor zone cron_zone h = ("expected exactly 6 fields", ground arith)
