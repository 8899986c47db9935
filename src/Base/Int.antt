-- ===== src/Base/Int.antt =====
-- Go's 64-bit `int`, `int64` and `time.Duration`, as bit patterns below 2 ^ 64.
use Prim.Native.Nat.{ℕ, ◌+◌, ◌-◌, ◌*◌, ◌%◌}
use mathlib.Core.Bool.{Bool, ◌&&◌}
use btrfs_snapah_pow.Base.Tests.{ltb, leb, if◌then◌else◌}

-- `a + b` wraps round.
abbrev pub add_int : ℕ → ℕ → ℕ
add_int a b = (a + b) % 18446744073709551616

-- `a * b` wraps round.
abbrev pub mul_int : ℕ → ℕ → ℕ
mul_int a b = (a * b) % 18446744073709551616

-- `a <= b`, signed
abbrev pub le_int : ℕ → ℕ → Bool
le_int a b =
    leb ((a + 9223372036854775808) % 18446744073709551616)
      ((b + 9223372036854775808) % 18446744073709551616)

-- `a > 0`, signed
abbrev pub is_positive : ℕ → Bool
is_positive a = ltb 0 a && ltb a 9223372036854775808

-- `t.Add(d)`, for a duration that may be negative
abbrev pub add_duration : ℕ → ℕ → ℕ
add_duration t d = if ltb d 9223372036854775808 then t + d else t - (18446744073709551616 - d)

-- `time.Second` and the like, in nanoseconds
abbrev pub second : ℕ
second = 1000000000

abbrev pub minute : ℕ
minute = 60000000000

abbrev pub hour : ℕ
hour = 3600000000000
