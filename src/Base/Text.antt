-- ===== src/Base/Text.antt =====
-- The functions of Go's `strings` package that the program applies to prefixes.
use Prim.Native.Char.{code}
use Prim.Native.String
use Prim.Native.String.{String}
use mathlib.Core.Path.{◌≡◌}
use mathlib.Core.Bool.{Bool, true, false}
use mathlib.Core.Option.{Option, none, some}
use native.Mathlib.Omega.{arith}
use text.Mathlib.Text.{◌==◌}
use text.Mathlib.TextLemmas.{nil-append, cons-append}
use btrfs_snapah_pow.Base.Tests.{nat_eq, if◌then◌else◌}

-- `s == ""`
abbrev pub is_empty : String → Bool
is_empty s = s == ""

-- What follows the prefix in the text, if the text begins with it.
unfoldable pub strip : String → String → Option String
strip String.[] s = some s
strip (String.◌∷◌ c p) String.[] = none
strip (String.◌∷◌ c p) (String.◌∷◌ d s) = if nat_eq (code c) (code d) then strip p s else none

abbrev is_some : Option String → Bool
is_some none = false
is_some (some _) = true

abbrev or_whole : String → Option String → String
or_whole s none = s
or_whole s (some t) = t

-- `strings.HasPrefix(s, prefix)`
abbrev pub has_prefix : String → String → Bool
has_prefix s prefix = is_some (strip prefix s)

-- `strings.TrimPrefix(s, prefix)`
abbrev pub trim_prefix : String → String → String
trim_prefix s prefix = or_whole s (strip prefix s)

pub strip-append : (p s : String) → strip p (String.◌++◌ p s) ≡ some s
unfolding strip
strip-append String.[] s = rw (nil-append s)
strip-append (String.◌∷◌ c p) s = rw (cons-append c p s) (ground (arith, strip-append p s))
