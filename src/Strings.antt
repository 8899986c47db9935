-- ===== src/Strings.antt =====
-- The functions of Go's `strings` and `strconv` packages that internal/btrfs/btrfs.go reads output
-- with, over the code points of a text.
use btrfs_snapah_pow.Base.{
  ◌≡◌, refl, ℕ, suc, ◌+◌, ◌*◌, ◌-◌, String, ◌++◌, Bool, not, ◌&&◌, ◌||◌, Option, none, some, List,
  [], ◌∷◌, ltb, leb, nat_eq, strip, is_empty, if◌then◌else◌,
}
use Prim.Native.Char.{Char, code}

-- `unicode.IsSpace`
abbrev pub is_space : ℕ → Bool
is_space c =
    nat_eq c 32
    || (leb 9 c && leb c 13)
    || nat_eq c 0x85
    || nat_eq c 0xA0
    || nat_eq c 0x1680
    || (leb 0x2000 c && leb c 0x200A)
    || nat_eq c 0x2028
    || nat_eq c 0x2029
    || nat_eq c 0x202F
    || nat_eq c 0x205F
    || nat_eq c 0x3000

abbrev snoc : String → Char → String
snoc s c = s ++ String.◌∷◌ c String.[]

split_from : ℕ → String → String → List String
split_from sep current String.[] = current ∷ []
split_from sep current (String.◌∷◌ c s) =
    let rest = split_from sep (if nat_eq (code c) sep then "" else snoc current c) s in
    if nat_eq (code c) sep then current ∷ rest else rest

-- `strings.Split(s, sep)` for a separator of one character
unfoldable pub split : ℕ → String → List String
unfolding split_from
split sep s = split_from sep "" s

unfoldable pub trim_left : String → String
trim_left String.[] = String.[]
trim_left (String.◌∷◌ c s) = if is_space (code c) then trim_left s else String.◌∷◌ c s

-- The text without the white space at its end; `pending` is the white space read last.
trim_right_from : String → String → String
trim_right_from pending String.[] = ""
trim_right_from pending (String.◌∷◌ c s) =
    let rest = trim_right_from (if is_space (code c) then snoc pending c else "") s in
    if is_space (code c) then rest else pending ++ String.◌∷◌ c rest

-- `strings.TrimSpace`
unfoldable pub trim_space : String → String
unfolding trim_left trim_right_from
trim_space s = trim_right_from "" (trim_left s)

abbrev add_field : String → List String → List String
add_field current rest = if is_empty current then rest else current ∷ rest

fields_from : String → String → List String
fields_from current String.[] = add_field current []
fields_from current (String.◌∷◌ c s) =
    let rest = fields_from (if is_space (code c) then "" else snoc current c) s in
    if is_space (code c) then add_field current rest else rest

-- `strings.Fields`
unfoldable pub fields : String → List String
unfolding fields_from
fields s = fields_from "" s

-- `strings.Index(s, p)`, with what follows the occurrence: `s[i+len(p):]`
unfoldable pub index : String → String → Option (ℕ × String)
unfolding strip
index String.[] p = elim (strip p String.[]) [ none ↦ none | some rest ↦ some (0, rest) ]
index (String.◌∷◌ c s) p =
    let later = index s p in
    elim (strip p (String.◌∷◌ c s)) [
      | some rest ↦ some (0, rest)
      | none ↦ elim later [ none ↦ none | some (i, rest) ↦ some (suc i, rest) ]
    ]

parse_digits : ℕ → String → ℕ
parse_digits n String.[] = n
parse_digits n (String.◌∷◌ c s) =
    let rest = parse_digits (n * 10 + (code c - 48)) s in
    if not (leb 48 (code c) && leb (code c) 57)
    then 0
    else if leb 1844674407370955162 n || ltb 18446744073709551615 (n * 10 + (code c - 48))
    then 18446744073709551615
    else rest

-- The value of `strconv.ParseUint(s, 10, 64)`: 0 for a syntax error, the greatest uint64 for a
-- number out of range.
unfoldable pub parse_uint : String → ℕ
unfolding parse_digits
parse_uint s = parse_digits 0 s

split_test : split b'\n' "a\n\nb" ≡ "a" ∷ "" ∷ "b" ∷ []
unfolding split
split_test = refl

fields_test : fields (trim_space "  a b\tcc  d\n") ≡ "a" ∷ "b" ∷ "cc" ∷ "d" ∷ []
unfolding fields trim_space
fields_test = refl
