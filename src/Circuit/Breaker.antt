-- ===== src/Circuit/Breaker.antt =====
-- internal/circuit/breaker.go. `Call` takes the lock several times, so it is cut at the locks into
-- `look`, `wake`, `admit` and `settle`; `call` runs them with nothing in between, and the module
-- `Interleaving` lets other calls run between them.
pub mod Sequential
pub mod Interleaving
use nous.Prelude.{
  ℕ, suc, ◌+◌, Bool, true, false, Option, none, some, List, [], ◌∷◌, if◌then◌else◌, ◌==◌, ◌*◌,
}
use nous.Prelude.Int.{ℤ, pos, pos_part, neg_part, leb_ℤ}
use nous.Prelude.Time.{Time, Duration, before, add, second}

pub data State : Type 0 where
  closed open_ half_open : State

pub record Config : Type 0 where
  pub max_failures : ℤ
  pub timeout : Duration
  pub max_requests : ℤ

abbrev pub default_config : Config
default_config = record { max_failures = pos 5; timeout = pos (30 * second); max_requests = pos 1 }

pub record Breaker : Type 0 where
  pub config : Config
  pub state : State
  pub failures : ℕ
  pub next_try : Time
  pub half_open_requests : ℕ

abbrev is_zero : ℤ → Bool
is_zero n = pos_part n + neg_part n == 0

-- `New`: zero means the default for two of the three settings.
unfoldable pub new_breaker : Config → Breaker
new_breaker config = record {
  config = record {
    max_failures =
        if is_zero config.max_failures then default_config.max_failures else config.max_failures;
    timeout = if is_zero config.timeout then default_config.timeout else config.timeout;
    max_requests = config.max_requests;
  };
  state = closed;
  failures = 0;
  next_try = 0;
  half_open_requests = 0;
}

-- What a call finds at its first lock, at the time `now`.
pub data Look : Type 0 where
  refused probing entering : Look

look_at : State → Time → Time → Look
look_at open_ now next_try = if before now next_try then refused else probing
look_at _ now next_try = entering

unfoldable pub look : Breaker → Time → Look
unfolding look_at
look b now = look_at b.state now b.next_try

-- The second lock, taken by a call that is probing.
wake_from : State → Breaker → Breaker
wake_from open_ b = record b { state = half_open; half_open_requests = 0 }
wake_from _ b = b

unfoldable pub wake : Breaker → Breaker
unfolding wake_from
wake b = wake_from b.state b

-- The third lock: `none` is `ErrCircuitOpen`.
admit_from : State → Breaker → Option Breaker
admit_from half_open b =
    if leb_ℤ b.config.max_requests (pos b.half_open_requests)
    then none
    else some (record b { half_open_requests = b.half_open_requests + 1 })
admit_from _ b = some b

unfoldable pub admit : Breaker → Option Breaker
unfolding admit_from
admit b = admit_from b.state b

close_from : State → State
close_from half_open = closed
close_from s = s

unfoldable pub on_success : Breaker → Breaker
unfolding close_from
on_success b = record b { failures = 0; state = close_from b.state }

unfoldable pub on_failure : Breaker → Time → Breaker
on_failure b now =
    if leb_ℤ b.config.max_failures (pos (b.failures + 1))
    then record b { failures = b.failures + 1; state = open_; next_try = add now b.config.timeout }
    else record b { failures = b.failures + 1 }

-- The last lock, after `fn()`: whether `fn` failed, and the time.
unfoldable pub settle : Breaker → Bool → Time → Breaker
unfolding on_success on_failure
settle b failed now = if failed then on_failure b now else on_success b

-- What `Call` returns: `ErrCircuitOpen`, or what `fn` returned.
pub data Outcome : Type 0 where
  circuit_open : Outcome
  ran : Bool → Outcome

run_admitted : Option Breaker → Breaker → Bool → Time → Breaker × Outcome
run_admitted none b failed later = (b, circuit_open)
run_admitted (some b') b failed later = (settle b' failed later, ran failed)

after_look : Look → Breaker → Bool → Time → Breaker × Outcome
after_look refused b failed later = (b, circuit_open)
after_look probing b failed later = run_admitted (admit (wake b)) (wake b) failed later
after_look entering b failed later = run_admitted (admit b) b failed later

-- `Call` with no other call in between: it starts at `now`, `fn` fails or not and ends at `later`.
unfoldable pub call : Breaker → Time → Bool → Time → Breaker × Outcome
unfolding look wake admit settle run_admitted after_look
call b now failed later = after_look (look b now) b failed later
