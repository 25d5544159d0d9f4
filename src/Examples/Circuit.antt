-- ===== src/Examples/Circuit.antt =====
-- Worked inputs for internal/circuit/breaker.go.
use nous.Prelude.{
  ℕ, ◌<◌, ◌+◌, ◌≡◌, refl, true, false, List, [], ◌∷◌, arith, ltb, length, if◌then◌else◌,
}
use nous.Prelude.Int.{pos, leb_ℤ}
use nous.Circuit.Breaker.{
  settle, Breaker, Config, closed, open_, half_open, new_breaker, look, wake, admit, call, ran,
}
use nous.Circuit.Breaker.Sequential as Calls
use nous.Circuit.Breaker.Sequential.{Attempt, run, outcomes}
use nous.Circuit.Breaker.Interleaving as Threads
use nous.Circuit.Breaker.Interleaving.{System, Reach}
use nous.Circuit.Breaker.Interleaving.Admissions.{admissions, admissions_bounded}

-- Three failures open it, for ten time units.
abbrev settings : Config
settings = record { max_failures = pos 3; timeout = pos 10; max_requests = pos 1 }

abbrev fresh : Breaker
fresh = record {
  config = settings;
  state = closed;
  failures = 0;
  next_try = 0;
  half_open_requests = 0;
}

made : new_breaker settings ≡ fresh
unfolding new_breaker
made = refl

abbrev failing : List Attempt
failing = (100, true, 101) ∷ (102, true, 103) ∷ (104, true, 105) ∷ []

abbrev tripped : Breaker
tripped = record fresh { state = open_; failures = 3; next_try = 115 }

trips_there : run fresh failing ≡ tripped
unfolding run call
trips_there = refl

trips_exactly_example :
    (run fresh failing).state ≡ (if ltb (0 + length failing) 3 then closed else open_)
trips_exactly_example =
    Calls.trips_exactly fresh failing 3 refl refl (refl, (refl, (refl, tt))) (omega arith)
      (omega arith)

tripped-Inv : Calls.Inv tripped
tripped-Inv = record {
  positive = refl;
  below = λ e. ground arith;
  reached = λ e. ground arith;
  settled = ground arith;
}

run-Inv_example : Calls.Inv (run tripped ((110, false, 111) ∷ (120, true, 121) ∷ []))
run-Inv_example = Calls.run-Inv tripped ((110, false, 111) ∷ (120, true, 121) ∷ []) refl tripped-Inv

probe_decides_example :
    ((call tripped 120 true 121).1 ≡ ran true)
    × ((call tripped 120 true 121).0.state ≡ open_)
    × ((call tripped 120 true 121).0.failures ≡ 4)
    × ((call tripped 120 true 121).0.next_try ≡ 131)
probe_decides_example = Calls.probe_decides tripped 120 true 121 refl tripped-Inv refl refl

-- `New` with a `MaxRequests` of 0, once it has opened.
abbrev shut : Breaker
shut = record tripped { config = record settings { max_requests = pos 0 } }

-- The breaker opened while a fourth call was still running.
abbrev overtaken : System
overtaken = record { breaker = tripped; probes = 0; entrants = 0; running = 1 }

late_success_sticks_example : (t : System) × Reach overtaken t × Threads.IsStuck t
late_success_sticks_example = Threads.late_success_sticks overtaken refl refl refl refl

abbrev stuck : System
stuck = record {
  breaker = record fresh {
    state = half_open;
    failures = 1;
    next_try = 115;
    half_open_requests = 1;
  };
  probes = 0;
  entrants = 0;
  running = 0;
}

stuck_turns_away : Reach stuck (record stuck { entrants = 0 })
unfolding look admit
stuck_turns_away =
    Reach.next {t = record stuck { entrants = 1 }}
      (Reach.next {t = stuck} Reach.here (Threads.arrive 500 refl refl))
      (Threads.bounce 0 refl refl refl)

-- `n` calls at the third lock and `m` whose `fn` runs, the breaker having counted `failures`.
abbrev crowd : ℕ → ℕ → ℕ → System
crowd n m failures = record {
  breaker = record fresh { failures = failures };
  probes = 0;
  entrants = n;
  running = m;
}

-- One more call arrives.
one_more : (n : ℕ) {s : System} → Reach s (crowd n 0 0) → Reach s (crowd (n + 1) 0 0)
unfolding look
one_more n r = Reach.next {t = crowd n 0 0} r (Threads.arrive 100 refl (ground arith))

-- One of them is let in.
one_in : (n m : ℕ) {s : System} → Reach s (crowd (n + 1) m 0) → Reach s (crowd n (m + 1) 0)
unfolding admit
one_in n m r =
    Reach.next {t = crowd (n + 1) m 0} r (Threads.enter n fresh (ground arith) refl (ground arith))

-- One `fn` fails, and not yet as the third.
one_fails :
    (m f : ℕ) {s : System} → f + 1 < 3 → Reach s (crowd 0 (m + 1) f) → Reach s (crowd 0 m (f + 1))
unfolding settle
one_fails m f h r =
    Reach.next {t = crowd 0 (m + 1) f} r (Threads.return m true 105 (ground arith) (ground arith))

-- The state of `overtaken` is reached: four calls are let in and three of them fail.
opened_under_way : Reach (Threads.initial settings) overtaken
unfolding new_breaker settle
opened_under_way =
    Reach.next {t = crowd 0 2 2}
      (one_fails 2 1 (omega arith) (
        one_fails 3 0 (omega arith) (
          one_in 0 3 (
            one_in 1 2 (
              one_in 2 1
                (one_in 3 0 (one_more 3 (one_more 2 (one_more 1 (one_more 0 Reach.here))))))))))
      (Threads.return 1 true 105 refl refl)

-- With another call still running, a probe gets in.
abbrev probed : Breaker
probed = record tripped { state = half_open; half_open_requests = 1 }

probe_in :
    Reach
      (Threads.initial settings)
      (record { breaker = probed; probes = 0; entrants = 0; running = 2 })
unfolding look wake admit
probe_in =
    Reach.next
      {t = record overtaken { breaker = record tripped { state = half_open }; entrants = 1 }}
      (Reach.next {t = record overtaken { probes = 1 }}
        (Reach.next {t = overtaken} opened_under_way (Threads.arrive_open 120 refl refl))
        (Threads.awaken 0 refl refl))
      (Threads.enter 0 probed refl refl refl)

admissions_bounded_example :
    (half_open ≡ closed → leb_ℤ (pos 3) (pos 3) ≡ false)
    × (half_open ≡ half_open → leb_ℤ (pos (admissions probe_in)) (pos 1) ≡ true)
admissions_bounded_example =
    admissions_bounded settings (record { breaker = probed; probes = 0; entrants = 0; running = 2 })
      refl refl probe_in
