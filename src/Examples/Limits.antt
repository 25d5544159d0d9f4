-- ===== src/Examples/Limits.antt =====
-- Ten requests a second with a burst of three.
use Prim.Native.Nat.{min}
use nous.Prelude.{none, ◌≡◌, refl, arith}
use nous.Prelude.Int.{pos}
use nous.Prelude.Float.Milli.{Milli, num, milli_float}
use nous.RateLimit.{RateLimiter}
use nous.RateLimit.Burst.{calls_at, calls_at_burst}
use nous.RateLimit.Sample.{counted_milli}

abbrev limiter : RateLimiter Milli
limiter = record { buckets = λ k. none; rate = num 10000; capacity = pos 3 }

calls_at_burst_example : (calls_at counted_milli 5 limiter "10.0.0.1" 70).1 ≡ min 5 3
calls_at_burst_example =
    calls_at_burst counted_milli 5 3 limiter "10.0.0.1" 70 refl refl (omega arith) refl
