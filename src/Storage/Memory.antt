-- ===== src/Storage/Memory.antt =====
-- An ORM in memory, which meets the laws: tables are lists, in the order of insertion.
use btrfs_snapah_pow.Base.{
  ℕ, ◌≡◌, refl, sym, ap, String, ◌==◌, not, Option, none, some, List, [], ◌∷◌, map, Result, ok, err,
  if◌then◌else◌, Member, keep, inl, inr, find_first, find_first-Member, find_first_found,
  Member-append, Member-concat, Member-keep, take,
}
use mathlib.Core.List
use mathlib.Core.Path.{subst}
use btrfs_snapah_pow.Storage.Models.{Node, Snapshot, Policy, Event, ApiKeyRecord}
use btrfs_snapah_pow.Storage.Gorm.{Table, Gorm}
use btrfs_snapah_pow.Storage.Laws.{
  Model, satisfies, assign_all, TableLaws, api_key_model, snapshot_model, node_model,
}

abbrev up_to : {R : Type 0} → Option ℕ → List R → List R
up_to none rs = rs
up_to (some n) rs = take n rs

abbrev or_missing : {R : Type 0} → Option R → Result R
or_missing none = err "record not found"
or_missing (some r) = ok r

-- A table that lives in a field of `C`. `id` is the primary key.
module _ {C R : Type 0} (m : Model R) (id : R → String) (get : C → List R)
    (put : List R → C → C) where
  abbrev pub memory_table : Table C R
  memory_table = record {
    create = λ r c. (put (List.◌++◌ (get c) (r ∷ [])) c, ok tt);
    save = λ r c. (put (List.◌++◌ (keep (λ s. not (id s == id r)) (get c)) (r ∷ [])) c, ok tt);
    first = λ conds c. or_missing (find_first (satisfies m conds) (get c));
    find = λ q c. ok (up_to q.limit (keep (satisfies m q.conds) (get c)));
    updates = λ conds assigns c. (
      put (map (λ r. if satisfies m conds r then m.touch 0 (assign_all m assigns r) else r) (get c))
          c,
      ok tt,
    );
    remove = λ conds c. (put (keep (λ r. not (satisfies m conds r)) (get c)) c, ok tt);
  }

  pub first_of_missing : (o : Option R) (r : R) → or_missing o ≡ ok r → o ≡ some r
  first_of_missing none r h = cc
  first_of_missing (some s) r h = cc

  unfoldable pub memory_table-laws :
      ((rs : List R) (c : C) → get (put rs c) ≡ rs) → TableLaws memory_table m
  memory_table-laws get_put = record {
    rows = get;
    first_row = λ conds c r h.
        find_first-Member (satisfies m conds) (get c) r
          (first_of_missing (find_first (satisfies m conds) (get c)) r h);
    first_found = λ conds c r mem good.
        let (r', e) = find_first_found (satisfies m conds) (get c) r mem good in
        (r', ap or_missing e);
    save_stored = λ r c h.
        subst (Member r)
          (sym (get_put (List.◌++◌ (keep (λ s. not (id s == id r)) (get c)) (r ∷ [])) c))
          (Member-concat r (keep (λ s. not (id s == id r)) (get c)));
    save_others = λ r s c h mem.
        let mem' : Member s (List.◌++◌ (keep (λ s. not (id s == id r)) (get c)) (r ∷ [])) =
          subst (Member s) (get_put (List.◌++◌ (keep (λ s. not (id s == id r)) (get c)) (r ∷ [])) c)
            mem in
        elim (Member-append s (keep (λ s. not (id s == id r)) (get c)) (r ∷ []) mem') [
          | inl old ↦ inr (Member-keep (λ s. not (id s == id r)) s (get c) old).1
          | inr new ↦ elim new [ inl e ↦ inl (sym e) | inr none_left ↦ absurd none_left ]
        ];
    updates_rows = λ conds assigns c h. (0, get_put _ c);
    remove_rows = λ conds c h. get_put _ c;
  }

pub record Memory : Type 0 where
  pub nodes : List Node
  pub snapshots : List Snapshot
  pub policies : List Policy
  pub events : List Event
  pub api_keys : List ApiKeyRecord

abbrev pub empty_memory : Memory
empty_memory = record { nodes = []; snapshots = []; policies = []; events = []; api_keys = [] }

abbrev columnless : {R : Type 0} → Model R
columnless = record { column = λ name r. none; assign = λ c r. r; touch = λ now r. r }

abbrev pub memory_api_keys : Table Memory ApiKeyRecord
memory_api_keys =
    memory_table api_key_model (λ k. k.id) (λ c. c.api_keys) (λ rs c. record c { api_keys = rs })

abbrev pub memory_snapshots : Table Memory Snapshot
memory_snapshots =
    memory_table snapshot_model (λ s. s.id) (λ c. c.snapshots) (λ rs c. record c { snapshots = rs })

abbrev pub memory_nodes : Table Memory Node
memory_nodes = memory_table node_model (λ n. n.id) (λ c. c.nodes) (λ rs c. record c { nodes = rs })

abbrev pub memory : Gorm
memory = record {
  Conn = Memory;
  connect = λ d. ok empty_memory;
  auto_migrate = λ c. ok c;
  nodes = memory_nodes;
  snapshots = memory_snapshots;
  policies =
      memory_table columnless (λ p. p.id) (λ c. c.policies) (λ rs c. record c { policies = rs });
  events = memory_table columnless (λ e. e.id) (λ c. c.events) (λ rs c. record c { events = rs });
  api_keys = memory_api_keys;
}

unfoldable pub memory_api_keys-laws : TableLaws memory_api_keys api_key_model
unfolding memory_table-laws
memory_api_keys-laws =
    memory_table-laws api_key_model (λ k. k.id) (λ c. c.api_keys)
      (λ rs c. record c { api_keys = rs }) (λ rs c. refl)

unfoldable pub memory_snapshots-laws : TableLaws memory_snapshots snapshot_model
unfolding memory_table-laws
memory_snapshots-laws =
    memory_table-laws snapshot_model (λ s. s.id) (λ c. c.snapshots)
      (λ rs c. record c { snapshots = rs }) (λ rs c. refl)

unfoldable pub memory_nodes-laws : TableLaws memory_nodes node_model
unfolding memory_table-laws
memory_nodes-laws =
    memory_table-laws node_model (λ n. n.id) (λ c. c.nodes) (λ rs c. record c { nodes = rs })
      (λ rs c. refl)
