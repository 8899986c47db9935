-- ===== src/FilePath.antt =====
-- Go's `filepath.Join` and `filepath.Clean` on Unix, by path elements.
use btrfs_snapah_pow.Base.{
  String, ◌++◌, ◌==◌, Bool, ◌&&◌, ◌||◌, List, [], ◌∷◌, is_empty, has_prefix, strip, if◌then◌else◌,
  ◌≡◌, refl,
}
use btrfs_snapah_pow.Strings.{split}
use mathlib.Core.List.{reverse}

-- One element, on the elements kept so far with the last one in front.
abbrev push_element : Bool → List String → String → List String
push_element rooted [] part =
    if is_empty part || part == "." then [] else if part == ".." && rooted then [] else part ∷ []
push_element rooted (top ∷ kept) part =
    if is_empty part || part == "."
    then top ∷ kept
    else if part == ".."
    then (if top == ".." then part ∷ top ∷ kept else kept)
    else part ∷ top ∷ kept

push_elements : Bool → List String → List String → List String
push_elements rooted kept [] = kept
push_elements rooted kept (part ∷ parts) =
    push_elements rooted (push_element rooted kept part) parts

-- the elements with slashes between them
joined : List String → String
joined [] = ""
joined (e ∷ []) = e
joined (e ∷ f ∷ es) = e ++ ("/" ++ joined (f ∷ es))

unfoldable pub clean : String → String
unfolding push_elements joined strip
clean path =
    let rooted = has_prefix path "/" in
    let out = joined (reverse (push_elements rooted [] (split b'/' path))) in
    if rooted then "/" ++ out else if is_empty out then "." else out

abbrev not_empty : List String → List String
not_empty [] = []
not_empty (e ∷ es) = let rest = not_empty es in if is_empty e then rest else e ∷ rest

-- `filepath.Join`: the empty elements are left out, and the result is cleaned.
unfoldable pub join_path : List String → String
unfolding joined
join_path es = let path = joined (not_empty es) in if is_empty path then "" else clean path

join_test : join_path ("/mnt/data/" ∷ ".snapshots" ∷ "./a/../b" ∷ []) ≡ "/mnt/data/.snapshots/b"
unfolding join_path clean split
join_test = refl
