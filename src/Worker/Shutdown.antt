-- ===== src/Worker/Shutdown.antt =====
-- internal/worker/worker.go: one loop at most, and what `Stop` promises.
use nous.Prelude.{
  suc, true, false, List, [], ◌∷◌, ◌++◌, ◌≡◌, refl, sym, ap, ◌∙◌, subst, arith, All, length,
}
use nous.Worker.{Phase, ticking, waiting, returned, Worker, new_worker, Moves, Step, Steps}

-- Nothing was started and no loop runs, or one loop was started.
pub record IsSingle (w : Worker) : Type 0 where
  pub idle : w.started ≡ false → w.loops ≡ []
  pub busy : w.started ≡ true → length w.loops ≡ 1

Moves-length : {p q : Phase} {ps qs : List Phase} → Moves p q ps qs → length ps ≡ length qs
Moves-length (Moves.here ps) = refl
Moves-length (Moves.later r m) = ap suc (Moves-length m)

Moves-empty : {p q : Phase} {ps qs : List Phase} → Moves p q ps qs → ps ≡ [] → qs ≡ []
Moves-empty (Moves.here ps) e = cc e
Moves-empty (Moves.later r m) e = cc e

single_moved :
    (w : Worker) {p q : Phase} (ps : List Phase)
    → Moves p q w.loops ps
    → IsSingle w
    → (w.started ≡ false → ps ≡ []) × (w.started ≡ true → length ps ≡ 1)
single_moved w ps m s = (λ e. Moves-empty m (s.idle e), λ e. sym (Moves-length m) ∙ s.busy e)

Step-IsSingle : {w v : Worker} → Step w v → IsSingle w → IsSingle v
Step-IsSingle {w} (Step.starts e q) s =
    rw q record { idle = λ k. cc; busy = λ k. ap (λ ps. length (ps ++ ticking ∷ [])) (s.idle e) }
Step-IsSingle (Step.starts_again e q) s = rw q s
Step-IsSingle (Step.cancels e q) s = rw q record { idle = s.idle; busy = s.busy }
Step-IsSingle (Step.stops_idle e q) s = rw q s
Step-IsSingle {w} (Step.rests m q) s =
    let r = single_moved w _ m s in rw q record { idle = r.0; busy = r.1 }
Step-IsSingle {w} (Step.fires m q) s =
    let r = single_moved w _ m s in rw q record { idle = r.0; busy = r.1 }
Step-IsSingle {w} (Step.returns c m q) s =
    let r = single_moved w _ m s in rw q record { idle = r.0; busy = r.1 }

-- However often `Start` and `Stop` are called, and from wherever, there is no loop before the first
-- `Start` and exactly one from then on.
pub Steps-IsSingle : {w : Worker} → Steps new_worker w → IsSingle w
Steps-IsSingle (Steps.none_yet q) = rw q record { idle = λ e. refl; busy = λ e. cc }
Steps-IsSingle (Steps.then_step r s) = Step-IsSingle s (Steps-IsSingle r)

-- `Stop` has returned from its wait: a loop was started, and none is left that has not returned.
pub record IsStopped (w : Worker) : Type 0 where
  pub was_started : w.started ≡ true
  pub gone : All (λ p. p ≡ returned) w.loops

Moves-gone :
    {A : Type 0} {p q : Phase} {ps qs : List Phase}
    → Moves p q ps qs
    → (p ≡ returned → ⊥)
    → All (λ r. r ≡ returned) ps
    → A
Moves-gone (Moves.here ps) n h = absurd (n h.0)
Moves-gone (Moves.later r m) n h = Moves-gone m n h.1

-- What a stopped worker stays: stopped, with no tick more.
abbrev StaysAt : Worker → Worker → Type 0
StaysAt w v = IsStopped v × (v.ticks ≡ w.ticks)

Step-IsStopped : {w v : Worker} → Step w v → IsStopped w → StaysAt w v
Step-IsStopped {w} (Step.starts e q) s = let z : true ≡ false = sym s.was_started ∙ e in cc
Step-IsStopped (Step.starts_again e q) s = rw q (s, refl)
Step-IsStopped (Step.cancels e q) s =
    rw q (record { was_started = s.was_started; gone = s.gone }, refl)
Step-IsStopped (Step.stops_idle e q) s = rw q (s, refl)
Step-IsStopped (Step.rests m q) s = Moves-gone m (λ e. cc) s.gone
Step-IsStopped (Step.fires m q) s = Moves-gone m (λ e. cc) s.gone
Step-IsStopped (Step.returns c m q) s = Moves-gone m (λ e. cc) s.gone

-- Once `Stop` has returned from a worker that was started, no tick begins any more, whatever is called
-- afterwards: the worker cannot be started again.
pub Steps-IsStopped : {w v : Worker} → Steps w v → IsStopped w → IsStopped v × (v.ticks ≡ w.ticks)
Steps-IsStopped (Steps.none_yet q) s = rw q (s, refl)
Steps-IsStopped (Steps.then_step r t) s =
    let a = Steps-IsStopped r s in let b = Step-IsStopped t a.0 in (b.0, b.1 ∙ a.1)

one_item : {A : Type 0} (ps : List A) → length ps ≡ 1 → (p : A) × (ps ≡ p ∷ [])
one_item [] h = absurd (omega arith)
one_item (p ∷ []) h = (p, refl)
one_item (p ∷ q ∷ ps) h = absurd (omega arith)

-- Where the steps of a shutdown end.
abbrev CanStop : Worker → Type 0
CanStop w = (v : Worker) × Steps w v × IsStopped v × (v.ticks ≡ w.ticks)

from_waiting :
    (w : Worker) → w.started ≡ true → w.cancelled ≡ true → w.loops ≡ waiting ∷ [] → CanStop w
from_waiting w s c e = (
  record w { loops = returned ∷ [] },
  Steps.then_step (Steps.none_yet refl) (
      Step.returns c (subst (λ l. Moves waiting returned l (returned ∷ [])) (sym e) (Moves.here []))
        refl),
  record { was_started = s; gone = (refl, tt) },
  refl,
)

from_ticking :
    (w : Worker) → w.started ≡ true → w.cancelled ≡ true → w.loops ≡ ticking ∷ [] → CanStop w
from_ticking w s c e =
    let u = record w { loops = waiting ∷ [] } in
    let m =
      Step.rests (subst (λ l. Moves ticking waiting l (waiting ∷ [])) (sym e) (Moves.here []))
        refl in
    (
      record w { loops = returned ∷ [] },
      Steps.then_step (Steps.then_step (Steps.none_yet refl) m)
          (Step.returns c (Moves.here []) refl),
      record { was_started = s; gone = (refl, tt) },
      refl,
    )

from_phase :
    (w : Worker) (p : Phase) → w.started ≡ true → w.cancelled ≡ true → w.loops ≡ p ∷ [] → CanStop w
from_phase w Phase.ticking s c e = from_ticking w s c e
from_phase w Phase.waiting s c e = from_waiting w s c e
from_phase w Phase.returned s c e = (
  w,
  Steps.none_yet refl,
  record { was_started = s; gone = subst (All (λ r. r ≡ returned)) (sym e) (refl, tt) },
  refl,
)

-- From every state that the worker can reach, if it was started and its context is done, steps of its own lead to a
-- state in which `Stop` returns, and no further tick begins on the way.
pub shuts_down :
    {w : Worker}
    → Steps new_worker w
    → w.started ≡ true
    → w.cancelled ≡ true
    → (v : Worker) × Steps w v × IsStopped v × (v.ticks ≡ w.ticks)
shuts_down {w} r s c =
    let o = one_item w.loops ((Steps-IsSingle r).busy s) in from_phase w o.0 s c o.1
