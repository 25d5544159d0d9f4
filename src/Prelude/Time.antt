-- ===== src/Prelude/Time.antt =====
-- Go's `time.Time` and `time.Duration`. An instant is the number of nanoseconds since Go's zero
-- time, so `UTC` is the identity and instants before that time are left out; a duration is a signed
-- number of nanoseconds.
use Prim.Native.Nat.{ℕ, ◌+◌, ◌-◌, ◌*◌, ◌^◌, min}
use mathlib.Core.Bool.{Bool}
use nous.Prelude.Tests.{ltb, leb, ◌==◌, if◌then◌else◌}
use nous.Prelude.Int.{ℤ, pos, negsuc, pos_part, neg_part}

abbrev pub Time : Type 0
Time = ℕ

abbrev pub Duration : Type 0
Duration = ℤ

-- `t.UTC()` changes the location that is printed, not the instant.
abbrev pub utc : Time → Time
utc t = t

abbrev pub before : Time → Time → Bool
before t u = ltb t u

abbrev pub after : Time → Time → Bool
after t u = ltb u t

abbrev pub equal : Time → Time → Bool
equal t u = t == u

abbrev pub max_duration : ℕ
max_duration = 2 ^ 63 - 1

-- `t.Sub(u)`, which saturates at the largest and the smallest duration.
abbrev pub sub : Time → Time → Duration
sub t u = if leb u t then pos (min (t - u) max_duration) else negsuc (min (u - t - 1) max_duration)

-- `t.Add(d)`.
abbrev pub add : Time → Duration → Time
add t d = t + pos_part d - neg_part d

abbrev pub second : ℕ
second = 1_000_000_000

abbrev pub hour : ℕ
hour = 3600 * second
