-- ===== src/Storage/Laws.antt =====
-- What the repository relies on of the ORM: the documented meaning of the calls in
-- internal/storage/db.go, in terms of the rows that a table holds and of their columns.
use btrfs_snapah_pow.Base.{
  ℕ, ◌≡◌, String, ◌==◌, Bool, true, false, not, ◌&&◌, Option, none, some, List, [], ◌∷◌, map, ok,
  nat_eq, if◌then◌else◌, Member, keep, ◌⊎◌,
}
use btrfs_snapah_pow.Storage.Models.{Node, Snapshot, ApiKeyRecord}
use btrfs_snapah_pow.Storage.Gorm.{Value, text, flag, time, Cond, Table}

abbrev bool_eq : Bool → Bool → Bool
bool_eq true b = b
bool_eq false b = not b

abbrev pub value_eq : Value → Option Value → Bool
value_eq (text s) (some (text t)) = t == s
value_eq (flag b) (some (flag c)) = bool_eq b c
value_eq (time s) (some (time t)) = nat_eq t s
value_eq _ _ = false

-- A model as the ORM sees it: its columns, how an assignment to one changes a row, and what an update
-- sets besides, at a time: the field `UpdatedAt` of a model that has one.
pub record Model (R : Type 0) : Type 0 where
  pub column : String → R → Option Value
  pub assign : Cond → R → R
  pub touch : ℕ → R → R

abbrev pub satisfies : {R : Type 0} → Model R → List Cond → R → Bool
satisfies m [] r = true
satisfies m (c ∷ conds) r = value_eq c.1 (m.column c.0 r) && satisfies m conds r

abbrev pub assign_all : {R : Type 0} → Model R → List Cond → R → R
assign_all m [] r = r
assign_all m (c ∷ assigns) r = assign_all m assigns (m.assign c r)

-- `rows` are the rows that are not deleted.
pub record TableLaws {C R : Type 0} (t : Table C R) (m : Model R) : Type 0 where
  pub rows : C → List R
  pub first_row :
      (conds : List Cond) (c : C) (r : R)
      → t.first conds c ≡ ok r
      → (satisfies m conds r ≡ true) × Member r (rows c)
  pub first_found :
      (conds : List Cond) (c : C) (r : R)
      → Member r (rows c)
      → satisfies m conds r ≡ true
      → (r' : R) × (t.first conds c ≡ ok r')
  pub save_stored : (r : R) (c : C) → (t.save r c).1 ≡ ok tt → Member r (rows (t.save r c).0)
  pub save_others :
      (r s : R) (c : C)
      → (t.save r c).1 ≡ ok tt
      → Member s (rows (t.save r c).0)
      → (s ≡ r) ⊎ Member s (rows c)
  pub updates_rows :
      (conds assigns : List Cond) (c : C)
      → (t.updates conds assigns c).1 ≡ ok tt
      → (now : ℕ) × (rows (t.updates conds assigns c).0
          ≡ map
              (λ r. if satisfies m conds r then m.touch now (assign_all m assigns r) else r)
              (rows c))
  pub remove_rows :
      (conds : List Cond) (c : C)
      → (t.remove conds c).1 ≡ ok tt
      → rows (t.remove conds c).0 ≡ keep (λ r. not (satisfies m conds r)) (rows c)

-- The columns that the queries name.
abbrev pub api_key_column : String → ApiKeyRecord → Option Value
api_key_column name k =
    if name == "id"
    then some (text k.id)
    else if name == "key_hash"
    then some (text k.key_hash)
    else if name == "active"
    then some (flag k.active)
    else none

abbrev pub api_key_assign : Cond → ApiKeyRecord → ApiKeyRecord
api_key_assign (name, flag b) k = if name == "active" then record k { active = b } else k
api_key_assign (name, time t) k =
    if name == "last_used_at" then record k { last_used_at = some t } else k
api_key_assign (name, text s) k = k

abbrev pub api_key_model : Model ApiKeyRecord
api_key_model = record { column = api_key_column; assign = api_key_assign; touch = λ now k. k }

abbrev pub snapshot_column : String → Snapshot → Option Value
snapshot_column name s =
    if name == "id"
    then some (text s.id)
    else if name == "node_id"
    then some (text s.node_id)
    else none

abbrev pub snapshot_model : Model Snapshot
snapshot_model = record { column = snapshot_column; assign = λ c s. s; touch = λ now s. s }

abbrev pub node_column : String → Node → Option Value
node_column name n = if name == "id" then some (text n.id) else none

abbrev pub node_assign : Cond → Node → Node
node_assign (name, text s) n = if name == "status" then record n { status = s } else n
node_assign (name, time t) n = if name == "last_seen" then record n { last_seen = t } else n
node_assign (name, flag b) n = n

abbrev pub node_model : Model Node
node_model = record {
  column = node_column;
  assign = node_assign;
  touch = λ now n. record n { updated_at = now };
}
