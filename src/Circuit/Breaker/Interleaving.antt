-- ===== src/Circuit/Breaker/Interleaving.antt =====
-- internal/circuit/breaker.go with several calls at once: between two locks of one call any other
-- call may take a lock. Calls at the same lock do not differ, so they are counted.
pub mod Admissions
use nous.Prelude.{ℕ, suc, ◌+◌, ◌≡◌, refl, Bool, true, false, none, some, arith}
use nous.Prelude.Int.{pos, neg_part, leb_ℤ}
use nous.Prelude.Time.{Time}
use nous.Circuit.Breaker.{
  closed, open_, half_open, Config, Breaker, new_breaker, look, refused, probing, entering, wake,
  admit, settle,
}

pub record System : Type 0 where
  pub breaker : Breaker
  -- calls that saw an open breaker whose time had come
  pub probes : ℕ
  -- calls that are about to take the third lock
  pub entrants : ℕ
  -- calls whose `fn` runs
  pub running : ℕ

abbrev pub initial : Config → System
initial config = record { breaker = new_breaker config; probes = 0; entrants = 0; running = 0 }

pub data Step (s : System) (t : System) : Type 0 where
  -- a call that is refused at its first lock
  turn_away : (now : Time) → look s.breaker now ≡ refused → t ≡ s → Step s t
  arrive_open :
      (now : Time)
      → look s.breaker now ≡ probing
      → t ≡ record s { probes = suc s.probes }
      → Step s t
  arrive :
      (now : Time)
      → look s.breaker now ≡ entering
      → t ≡ record s { entrants = suc s.entrants }
      → Step s t
  awaken :
      (n : ℕ)
      → s.probes ≡ suc n
      → t ≡ record s { breaker = wake s.breaker; probes = n; entrants = suc s.entrants }
      → Step s t
  enter :
      (n : ℕ) (b : Breaker)
      → s.entrants ≡ suc n
      → admit s.breaker ≡ some b
      → t ≡ record s { breaker = b; entrants = n; running = suc s.running }
      → Step s t
  bounce :
      (n : ℕ)
      → s.entrants ≡ suc n
      → admit s.breaker ≡ none
      → t ≡ record s { entrants = n }
      → Step s t
  return :
      (n : ℕ) (failed : Bool) (now : Time)
      → s.running ≡ suc n
      → t ≡ record s { breaker = settle s.breaker failed now; running = n }
      → Step s t

pub data Reach (s : System) : System → Type 0 where
  here : Reach s s
  next : {t u : System} → Reach s t → Step t u → Reach s u

pub record Inv (b : Breaker) : Type 0 where
  pub positive : leb_ℤ b.config.max_failures (pos 0) ≡ false
  pub below : b.state ≡ closed → leb_ℤ b.config.max_failures (pos b.failures) ≡ false
  pub bounded : b.state ≡ half_open → leb_ℤ (pos b.half_open_requests) b.config.max_requests ≡ true
  pub roomy : leb_ℤ (pos 0) b.config.max_requests ≡ true

new-Inv :
    (c : Config) → neg_part c.max_failures ≡ 0 → neg_part c.max_requests ≡ 0 → Inv (new_breaker c)
unfolding new_breaker
new-Inv c h k = ground arith

wake-Inv : (b : Breaker) → Inv b → Inv (wake b)
unfolding wake
wake-Inv b h = ground arith

admit-Inv : (b b' : Breaker) → admit b ≡ some b' → Inv b → Inv b'
unfolding admit
admit-Inv b b' e h = ground arith

settle-Inv : (b : Breaker) (failed : Bool) (now : Time) → Inv b → Inv (settle b failed now)
unfolding settle
settle-Inv b failed now h = ground arith

Step-Inv : {s t : System} → Step s t → Inv s.breaker → Inv t.breaker
Step-Inv (turn_away now l e) h = rw e h
Step-Inv (arrive_open now l e) h = rw e h
Step-Inv (arrive now l e) h = rw e h
Step-Inv {s} (awaken n p e) h = rw e (wake-Inv s.breaker h)
Step-Inv {s} (enter n b p a e) h = rw e (admit-Inv s.breaker b a h)
Step-Inv (bounce n p a e) h = rw e h
Step-Inv {s} (return n failed now p e) h = rw e (settle-Inv s.breaker failed now h)

Reach-keeps-Inv : {s t : System} → Reach s t → Inv s.breaker → Inv t.breaker
Reach-keeps-Inv here h = h
Reach-keeps-Inv (next r st) h = Step-Inv st (Reach-keeps-Inv r h)

-- With limits that are not negative, and however calls interleave, the invariant holds.
pub Reach-Inv :
    (c : Config) (t : System)
    → neg_part c.max_failures ≡ 0
    → neg_part c.max_requests ≡ 0
    → Reach (initial c) t
    → Inv t.breaker
Reach-Inv c t h k r = Reach-keeps-Inv r (new-Inv c h k)

-- Half open, no request left to give, and no call running that could settle it.
pub record IsStuck (s : System) : Type 0 where
  pub waiting : s.breaker.state ≡ half_open
  pub used_up : leb_ℤ s.breaker.config.max_requests (pos s.breaker.half_open_requests) ≡ true
  pub idle : s.running ≡ 0

stuck_wake : (b : Breaker) → b.state ≡ half_open → wake b ≡ b
unfolding wake
stuck_wake b h = ground arith

stuck_admit :
    (b b' : Breaker)
    → b.state ≡ half_open
    → leb_ℤ b.config.max_requests (pos b.half_open_requests) ≡ true
    → ¬ (admit b ≡ some b')
unfolding admit
stuck_admit b b' h u e = ground arith

Step-IsStuck : {s t : System} → Step s t → IsStuck s → IsStuck t
Step-IsStuck (turn_away now l e) h = rw e h
Step-IsStuck (arrive_open now l e) h = ground arith
Step-IsStuck (arrive now l e) h = ground arith
Step-IsStuck {s} (awaken n p e) h = ground (arith, stuck_wake s.breaker h.waiting)
Step-IsStuck {s} (enter n b p a e) h = absurd (stuck_admit s.breaker b h.waiting h.used_up a)
Step-IsStuck (bounce n p a e) h = ground arith
Step-IsStuck (return n failed now p e) h = absurd (ground arith)

-- Once stuck, whatever calls are made and however they interleave, no `fn` runs again.
pub IsStuck-forever : (s t : System) → IsStuck s → Reach s t → IsStuck t
IsStuck-forever s _ h here = h
IsStuck-forever s _ h (next {t = u} r st) = Step-IsStuck st (IsStuck-forever s u h r)

module _ (s : System) where
  returned : System
  returned = record s { breaker = settle s.breaker false 0; running = 0 }

  woken : Breaker
  woken = wake (settle s.breaker false 0)

  admitted : Breaker
  admitted = record woken { half_open_requests = woken.half_open_requests + 1 }

  waiting_probe : System
  waiting_probe = record returned { probes = suc s.probes }

  at_the_door : System
  at_the_door = record returned { breaker = woken; entrants = suc s.entrants }

  inside : System
  inside = record returned { breaker = admitted; running = 1 }

  left_half_open : System
  left_half_open = record returned { breaker = settle admitted true 0 }

-- An open breaker with one call still running, a limit of two failures or more and one request per
-- half-open period gets stuck: the running call succeeds, which forgets the failures but leaves the
-- breaker open; the next probe fails, which is then one failure only and opens nothing.
pub late_success_sticks :
    (s : System)
    → s.breaker.state ≡ open_
    → s.running ≡ 1
    → leb_ℤ s.breaker.config.max_failures (pos 1) ≡ false
    → s.breaker.config.max_requests ≡ pos 1
    → (t : System) × Reach s t × IsStuck t
unfolding returned woken admitted waiting_probe at_the_door inside left_half_open look wake admit
    settle
late_success_sticks s o r m q = (
  left_half_open s,
  next {t = inside s}
      (next {t = at_the_door s}
        (next {t = waiting_probe s}
          (next {t = returned s} (next here (return 0 false 0 r refl))
            (arrive_open s.breaker.next_try (ground arith) refl))
          (awaken s.probes refl refl))
        (enter s.entrants (admitted s) refl (ground arith) refl))
      (return 0 true 0 refl refl),
  ground arith,
)
