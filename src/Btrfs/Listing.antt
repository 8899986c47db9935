-- ===== src/Btrfs/Listing.antt =====
-- What `parseList` of internal/btrfs/btrfs.go makes of the command's output.
use btrfs_snapah_pow.Base.{
  ◌≤◌, ◌<◌, ◌≡◌, refl, ap, sym, ◌∙◌, String, true, none, some, List, [], ◌∷◌, length, All, arith,
  ltb, Bool-cases, Option-cases, ◌⊎◌, inl, inr,
}
use mathlib.Core.List
use btrfs_snapah_pow.Strings.{split, trim_space, fields, index}
use btrfs_snapah_pow.FilePath.{join_path}
use btrfs_snapah_pow.Btrfs.{
  SnapshotInfo, parse_line, parse_lines, parse_list, is_skipped, path_of, read_line,
}

-- The lines that are not read: they begin like a header, or have too few fields.
abbrev pub IsUnread : String → Type 0
IsUnread line = (is_skipped (trim_space line) ≡ true) ⊎ (length (fields (trim_space line)) < 9)

parse_line_unread :
    (base_path line : String)
    → (is_skipped line ≡ true) ⊎ (length (fields line) < 9)
    → parse_line base_path line ≡ none
unfolding parse_line
parse_line_unread base_path line (inl header) = rw header refl
parse_line_unread base_path line (inr short) = elim (Bool-cases (is_skipped line)) [
  | inl header ↦ rw header refl
  | inr other ↦ rw other (ground arith)
]

parse_lines_unread :
    (base_path : String) (lines : List String)
    → All IsUnread lines
    → parse_lines base_path lines ≡ []
unfolding parse_lines
parse_lines_unread base_path [] h = refl
parse_lines_unread base_path (line ∷ lines) h =
    rw (parse_line_unread base_path (trim_space line) h.0) (parse_lines_unread base_path lines h.1)

-- An output in which every line begins like a header or has less than nine fields is read as an
-- empty listing, without an error.
pub parse_list_unread :
    (output base_path : String)
    → All IsUnread (split b'\n' output)
    → parse_list output base_path ≡ []
unfolding parse_list
parse_list_unread output base_path h = parse_lines_unread base_path (split b'\n' output) h

-- A line that is read but has no "path " behind its start stands for the base path itself.
pub parse_line_base :
    (base_path line : String) (info : SnapshotInfo)
    → index line "path " ≡ none
    → parse_line base_path line ≡ some info
    → info.path ≡ join_path (base_path ∷ "" ∷ [])
unfolding parse_line path_of
parse_line_base base_path line info no_path h = elim (Bool-cases (is_skipped line)) [
  | inl header ↦ let h' : none ≡ some info = rw header at h in cc
  | inr other ↦ elim (Bool-cases (ltb (length (fields line)) 9)) [
    | inl short ↦ let h' : none ≡ some info = rw (other, short) at h in cc
    | inr long ↦
        let h' : some (read_line base_path line) ≡ some info = rw (other, long) at h in
        let e : read_line base_path line ≡ info = cc in
        ap (λ i. i.path) (sym e) ∙ ap (λ found. join_path (base_path ∷ path_of found ∷ [])) no_path
  ]
]

-- The lines are read one by one and in order.
pub parse_lines-append :
    (base_path : String) (xs ys : List String)
    → parse_lines base_path (List.◌++◌ xs ys)
      ≡ List.◌++◌ (parse_lines base_path xs) (parse_lines base_path ys)
unfolding parse_lines
parse_lines-append base_path [] ys = refl
parse_lines-append base_path (x ∷ xs) ys =
    elim (Option-cases (parse_line base_path (trim_space x))) [
      | inl skipped ↦ rw skipped (parse_lines-append base_path xs ys)
      | inr (info, read) ↦ rw read (ap (λ l. info ∷ l) (parse_lines-append base_path xs ys))
    ]

pub length-parse_lines :
    (base_path : String) (lines : List String) → length (parse_lines base_path lines) ≤ length lines
unfolding parse_lines
length-parse_lines base_path [] = omega arith
length-parse_lines base_path (x ∷ xs) = elim (Option-cases (parse_line base_path (trim_space x))) [
  | inl skipped ↦ rw skipped (omega (arith, length-parse_lines base_path xs))
  | inr (info, read) ↦ rw read (omega (arith, length-parse_lines base_path xs))
]
