-- ===== src/Btrfs/Examples.antt =====
-- Output of the command, as `btrfs subvolume list` prints it.
use btrfs_snapah_pow.Base.{ℕ, ◌≡◌, refl, String, [], ◌∷◌, strip, false, arith, inl, inr}
use btrfs_snapah_pow.Strings.{split, trim_space, fields, index, parse_uint}
use btrfs_snapah_pow.FilePath.{join_path, clean}
use btrfs_snapah_pow.Btrfs.{SnapshotInfo, parse_line, parse_lines, parse_list, snapshot_path}
use btrfs_snapah_pow.Btrfs.Listing.{parse_list_unread, parse_line_base}

abbrev row : ℕ → String → SnapshotInfo
row id path = record {
  id = id;
  uuid = "";
  parent_uuid = "";
  path = path;
  created_at = 0;
  is_read_only = false;
}

-- without `-t`: every line begins with "ID"
plain_listing :
    parse_list
      "ID 257 gen 10 top level 5 uuid 1b-2c path home\nID 300 gen 12 top level 5 uuid 3d path s/a b\n"
      "/mnt"
    ≡ []
unfolding parse_list parse_lines parse_line split trim_space fields strip
plain_listing = refl

-- with `-t`, which the program passes
abbrev table : String
table =
    "ID\tgen\ttop level\tuuid\tpath\n--\t---\t---------\t----\t----\n257\t10\t5\t1b-2c\thome\n300\t12\t5\t3d\tsnap\n"

parse_list_unread_run : parse_list table "/mnt" ≡ []
unfolding split trim_space fields strip
parse_list_unread_run =
    parse_list_unread table "/mnt"
      (inl refl, (inl refl, (inr (omega arith), (inr (omega arith), (inl refl, tt)))))

-- A row whose path has four spaces has nine fields.
abbrev spaced : String
spaced = "300\t12\t5\t3d\tour summer trip of 2024"

parse_line_base_run : "/mnt" ≡ join_path ("/mnt" ∷ "" ∷ [])
unfolding parse_line index fields strip
parse_line_base_run =
    parse_line_base "/mnt" spaced (row 12 "/mnt") refl
      (unfold parse_uint join_path clean split in refl)

named : snapshot_path "20260101_120000" "/data" "daily" ≡ "/data/.snapshots/daily_20260101_120000"
unfolding snapshot_path join_path clean split strip
named = refl
