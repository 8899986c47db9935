-- ===== src/Btrfs.antt =====
-- internal/btrfs/btrfs.go: the calls of the `btrfs` command, which is the parameter `Exec`, and the
-- reading of its output. `Time.Format` at the moment of the call is a parameter too.
pub mod Listing
pub mod Stream
mod Examples
use btrfs_snapah_pow.Base.{
  ℕ, String, ◌++◌, ◌==◌, Bool, true, false, not, ◌||◌, Option, none, some, List, [], ◌∷◌, zero, suc,
  length, ltb, Result, ok, err, is_empty, has_prefix, if◌then◌else◌,
}
use mathlib.Core.List
use btrfs_snapah_pow.Strings.{split, trim_space, fields, index, parse_uint}
use btrfs_snapah_pow.FilePath.{join_path}

-- A finished command: its standard output, its standard error, both as one, and the error of
-- running it, if any.
pub record Outcome : Type 0 where
  pub stdout : String
  pub stderr : String
  pub combined : String
  pub error : Option String

-- `exec.Command("btrfs", args...)`, run with a text on its standard input. `W` is the file systems
-- and whatever else the command reads and changes.
pub record Exec (W : Type 0) : Type 0 where
  pub run : List String → String → W → W × Outcome

pub record SnapshotInfo : Type 0 where
  pub id : ℕ
  pub uuid : String
  pub parent_uuid : String
  pub path : String
  pub created_at : ℕ
  pub is_read_only : Bool

-- The value, or the error with its message and the output.
abbrev checked : {A : Type 0} → String → Option String → String → A → Result A
checked message none output a = ok a
checked message (some e) output a = err (message ++ (e ++ (" - " ++ output)))

abbrev nth : List String → ℕ → String
nth [] n = ""
nth (f ∷ fs) zero = f
nth (f ∷ fs) (suc n) = nth fs n

-- the path of a line: what follows "path ", which must not stand at its start
path_of : Option (ℕ × String) → String
path_of none = ""
path_of (some (i, rest)) = if ltb 0 i then trim_space rest else ""

abbrev pub is_skipped : String → Bool
is_skipped line = is_empty line || has_prefix line "ID" || has_prefix line "--"

-- the entry of a line that is read
read_line : String → String → SnapshotInfo
read_line base_path line = record {
  id = parse_uint (nth (fields line) 1);
  uuid = "";
  parent_uuid = "";
  path = join_path (base_path ∷ path_of (index line "path ") ∷ []);
  created_at = 0;
  is_read_only = false;
}

-- one round of the loop of `parseList`, on a trimmed line
unfoldable pub parse_line : String → String → Option SnapshotInfo
unfolding path_of read_line
parse_line base_path line =
    if is_skipped line
    then none
    else if ltb (length (fields line)) 9
    then none
    else some (read_line base_path line)

abbrev append_some : {A : Type 0} → Option A → List A → List A
append_some none rest = rest
append_some (some a) rest = a ∷ rest

unfoldable pub parse_lines : String → List String → List SnapshotInfo
parse_lines base_path [] = []
parse_lines base_path (line ∷ lines) =
    append_some (parse_line base_path (trim_space line)) (parse_lines base_path lines)

unfoldable pub parse_list : String → String → List SnapshotInfo
parse_list output base_path = parse_lines base_path (split b'\n' output)

-- `SnapshotPath`; `ts` is the formatted time of the call.
unfoldable pub snapshot_path : String → String → String → String
snapshot_path ts base_dir name =
    if not (is_empty name)
    then join_path (base_dir ∷ ".snapshots" ∷ (name ++ ("_" ++ ts)) ∷ [])
    else join_path (base_dir ∷ ".snapshots" ∷ ts ∷ [])

module _ {W : Type 0} (exec : Exec W) where
  abbrev finish : String → W × Outcome → W × Result (Unit {0})
  finish message (w, o) = (w, checked message o.error o.combined tt)

  unfoldable pub create_snapshot : String → String → Bool → W → W × Result (Unit {0})
  create_snapshot source dest readonly w = finish "btrfs snapshot failed: " (
      exec.run
        ("subvolume"
          ∷ "snapshot"
          ∷ (if readonly then "-r" ∷ source ∷ dest ∷ [] else source ∷ dest ∷ []))
        "" w)

  unfoldable pub delete_snapshot : String → W → W × Result (Unit {0})
  delete_snapshot path w =
      finish "btrfs delete failed: " (exec.run ("subvolume" ∷ "delete" ∷ path ∷ []) "" w)

  listed : String → W × Outcome → W × Result (List SnapshotInfo)
  listed base_path (w, o) = elim o.error [
    | none ↦ (w, ok (parse_list o.combined base_path))
    | some e ↦ (w, err ("btrfs list failed: " ++ e))
  ]

  unfoldable pub list_snapshots : String → W → W × Result (List SnapshotInfo)
  unfolding listed
  list_snapshots base_path w =
      listed base_path (exec.run ("subvolume" ∷ "list" ∷ "-t" ∷ "-u" ∷ base_path ∷ []) "" w)

  unfoldable pub set_read_only : String → Bool → W → W × Result (Unit {0})
  set_read_only path readonly w = finish "btrfs property set failed: " (
      exec.run
        ("property" ∷ "set" ∷ "-ts" ∷ path ∷ "ro" ∷ (if readonly then "true" else "false") ∷ []) ""
        w)

  abbrev sent : W × Outcome → W × Result String
  sent (w, o) = (w, checked "btrfs send failed: " o.error o.stderr o.stdout)

  -- `SendSnapshot`: the buffer is the standard output.
  unfoldable pub send_snapshot : String → String → W → W × Result String
  send_snapshot path parent_path w = sent (
      exec.run
        ("send"
          ∷ (if not (is_empty parent_path) then "-p" ∷ parent_path ∷ path ∷ [] else path ∷ []))
        "" w)

  abbrev received : W × Outcome → W × Result (Unit {0})
  received (w, o) = (w, checked "btrfs receive failed: " o.error o.stderr tt)

  unfoldable pub receive_snapshot : String → String → W → W × Result (Unit {0})
  receive_snapshot dest_path buffer w = received (exec.run ("receive" ∷ dest_path ∷ []) buffer w)
