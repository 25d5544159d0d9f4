-- ===== src/Circuit/Breaker/Sequential.antt =====
-- What internal/circuit/breaker.go does to calls that run one after another.
use nous.Prelude.{
  ℕ, ◌+◌, ◌≤◌, ◌<◌, ◌≡◌, ◌≢◌, refl, ◌⊎◌, inl, inr, Bool, true, false, List, [], ◌∷◌, arith, ltb,
  ltb→lt, All, length, Bool-cases, ap, ◌∙◌, if◌then◌else◌,
}
use nous.Prelude.Int.{pos, neg_part, leb_ℤ}
use nous.Prelude.Time.{Time, add, before}
use nous.Circuit.Breaker.{
  closed, open_, half_open, Config, Breaker, new_breaker, Outcome, circuit_open, ran, call,
}

-- A call: when it starts, whether `fn` fails, and when `fn` ends.
abbrev pub Attempt : Type 0
Attempt = Time × Bool × Time

unfoldable pub run : Breaker → List Attempt → Breaker
run b [] = b
run b ((now, failed, later) ∷ rest) = run (call b now failed later).0 rest

unfoldable pub outcomes : Breaker → List Attempt → List Outcome
outcomes b [] = []
outcomes b ((now, failed, later) ∷ rest) =
    (call b now failed later).1 ∷ outcomes (call b now failed later).0 rest

-- What holds between calls: a closed breaker is below its limit of failures, an open one has reached
-- it, and it is never left half open.
pub record Inv (b : Breaker) : Type 0 where
  pub positive : leb_ℤ b.config.max_failures (pos 0) ≡ false
  pub below : b.state ≡ closed → leb_ℤ b.config.max_failures (pos b.failures) ≡ false
  pub reached : b.state ≡ open_ → leb_ℤ b.config.max_failures (pos b.failures) ≡ true
  pub settled : b.state ≢ half_open

pub new-Inv : (c : Config) → neg_part c.max_failures ≡ 0 → Inv (new_breaker c)
unfolding new_breaker
new-Inv c h = ground arith

call-Inv :
    (b : Breaker) (now : Time) (failed : Bool) (later : Time)
    → leb_ℤ b.config.max_requests (pos 0) ≡ false
    → Inv b
    → Inv (call b now failed later).0 × ((call b now failed later).0.config ≡ b.config)
unfolding call
call-Inv b now failed later m h = (ground arith, ground arith)

-- With a limit of failures above 0, room for a probe, and a breaker of which this holds to begin with,
-- no sequence of calls leaves the breaker half open, or closed at its limit of failures, or open below
-- it.
pub run-Inv :
    (b : Breaker) (attempts : List Attempt)
    → leb_ℤ b.config.max_requests (pos 0) ≡ false
    → Inv b
    → Inv (run b attempts)
unfolding run
run-Inv b [] m h = h
run-Inv b ((now, failed, later) ∷ rest) m h =
    let (h', e) = call-Inv b now failed later m h in
    run-Inv (call b now failed later).0 rest (rw e m) h'

-- Every call of the list fails.
abbrev pub AllFail : List Attempt → Type 0
AllFail = All (λ (a : Attempt). a.1 ≡ true)

call_counts :
    (b : Breaker) (now later : Time) (m : ℕ)
    → b.config.max_failures ≡ pos m
    → b.state ≡ closed
    → b.failures + 1 < m
    → ((call b now true later).0.state ≡ closed)
      × ((call b now true later).0.failures ≡ b.failures + 1)
      × ((call b now true later).0.config ≡ b.config)
unfolding call
call_counts b now later m e c h = ground arith

call_trips :
    (b : Breaker) (now later : Time) (m : ℕ)
    → b.config.max_failures ≡ pos m
    → b.state ≡ closed
    → m ≤ b.failures + 1
    → (call b now true later).0.state ≡ open_
unfolding call
call_trips b now later m e c h = ground arith

still_closed :
    (b : Breaker) (attempts : List Attempt) (m : ℕ)
    → b.config.max_failures ≡ pos m
    → b.state ≡ closed
    → AllFail attempts
    → b.failures + length attempts < m
    → (run b attempts).state ≡ closed
unfolding run
still_closed b [] m e c f h = c
still_closed b ((now, failed, later) ∷ rest) m e c f h =
    let (c', n, k) = call_counts b now later m e c (omega arith) in
    rw f.0 (
      still_closed (call b now true later).0 rest m (ap (λ (x : Config). x.max_failures) k ∙ e) c'
        f.1 (omega arith))

trips :
    (b : Breaker) (attempts : List Attempt) (m : ℕ)
    → b.config.max_failures ≡ pos m
    → b.state ≡ closed
    → AllFail attempts
    → b.failures < m
    → b.failures + length attempts ≡ m
    → (run b attempts).state ≡ open_
unfolding run
trips b [] m e c f l h = absurd (omega arith)
trips b ((now, failed, later) ∷ []) m e c f l h =
    rw f.0 (call_trips b now later m e c (omega arith))
trips b ((now, failed, later) ∷ a ∷ rest) m e c f l h =
    let (c', n, k) = call_counts b now later m e c (omega arith) in
    rw f.0 (
      trips (call b now true later).0 (a ∷ rest) m (ap (λ (x : Config). x.max_failures) k ∙ e) c'
        f.1 (omega arith) (omega arith))

-- A closed breaker below its limit opens with exactly the failing call that reaches the limit: after a
-- sequence of failing calls, no longer than that takes, it is open if the limit is reached and closed
-- otherwise.
pub trips_exactly :
    (b : Breaker) (attempts : List Attempt) (m : ℕ)
    → b.config.max_failures ≡ pos m
    → b.state ≡ closed
    → AllFail attempts
    → b.failures < m
    → b.failures + length attempts ≤ m
    → (run b attempts).state ≡ (if ltb (b.failures + length attempts) m then closed else open_)
trips_exactly b attempts m e c f l h = elim (Bool-cases (ltb (b.failures + length attempts) m)) [
  | inl t ↦ rw t (still_closed b attempts m e c f (ltb→lt _ _ t))
  | inr t ↦ rw t (trips b attempts m e c f l (ground arith))
]

call_blocked :
    (b : Breaker) (now : Time) (failed : Bool) (later : Time)
    → b.state ≡ open_
    → before now b.next_try ≡ true
    → call b now failed later ≡ (b, circuit_open)
unfolding call
call_blocked b now failed later s h = ground arith

-- An open breaker refuses all calls of a sequence that start before its time, and does not change.
pub open_blocks :
    (b : Breaker) (attempts : List Attempt)
    → b.state ≡ open_
    → All (λ (a : Attempt). before a.0 b.next_try ≡ true) attempts
    → (run b attempts ≡ b) × All (λ o. o ≡ circuit_open) (outcomes b attempts)
unfolding run outcomes
open_blocks b [] s h = (refl, tt)
open_blocks b ((now, failed, later) ∷ rest) s h =
    let (same_b, refused_all) = open_blocks b rest s h.1 in
    rw (call_blocked b now failed later s h.0) (same_b, (refl, refused_all))

-- With room for a probe, and a breaker of which the invariant between calls holds, the first call that
-- it gets when it is open and its time has come runs, and its result decides: a success closes the
-- breaker and forgets the failures, a failure counts one more and opens it again until its timeout has
-- passed once more.
pub probe_decides :
    (b : Breaker) (now : Time) (failed : Bool) (later : Time)
    → leb_ℤ b.config.max_requests (pos 0) ≡ false
    → Inv b
    → b.state ≡ open_
    → before now b.next_try ≡ false
    → ((call b now failed later).1 ≡ ran failed)
      × ((call b now failed later).0.state ≡ (if failed then open_ else closed))
      × ((call b now failed later).0.failures ≡ (if failed then b.failures + 1 else 0))
      × ((call b now failed later).0.next_try
          ≡ (if failed then add later b.config.timeout else b.next_try))
unfolding call
probe_decides b now failed later m h s t = ground arith

-- A breaker that lets no probe in: half open with its requests used up, or open with none to give.
abbrev pub IsWedged : Breaker → Type 0
IsWedged b =
    ((b.state ≡ half_open) × (leb_ℤ b.config.max_requests (pos b.half_open_requests) ≡ true))
    ⊎ ((b.state ≡ open_) × (leb_ℤ b.config.max_requests (pos 0) ≡ true))

call-IsWedged :
    (b : Breaker) (now : Time) (failed : Bool) (later : Time)
    → IsWedged b
    → ((call b now failed later).1 ≡ circuit_open) × IsWedged (call b now failed later).0
unfolding call
call-IsWedged b now failed later h = ground arith

-- Once the breaker is open with a `MaxRequests` of 0 or less, or half open with all requests used,
-- every later call of a sequence is refused, however much time passes.
pub wedged_refuses :
    (b : Breaker) (attempts : List Attempt)
    → IsWedged b
    → All (λ o. o ≡ circuit_open) (outcomes b attempts)
unfolding outcomes
wedged_refuses b [] h = tt
wedged_refuses b ((now, failed, later) ∷ rest) h =
    let (o, h') = call-IsWedged b now failed later h in
    (o, wedged_refuses (call b now failed later).0 rest h')
