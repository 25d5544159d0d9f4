-- ===== src/Worker.antt =====
-- internal/worker/worker.go: the evaluation loop as steps that any number of callers of `Start` and `Stop` and the
-- loops interleave. The mutex makes `Start`, and the part of `Stop` before its wait, one step each. A loop is in a tick, waits in
-- its `select`, or has returned; the wait group counts the loops that have not. A `select` whose two channels are
-- ready takes either, so a tick can still begin once the context is done.
pub mod Shutdown
use Prim.Native.String.{◌++◌ as append}
use nous.Prelude.{ℕ, suc, Bool, true, false, Option, none, some, String, List, [], ◌∷◌, ◌++◌, ◌≡◌}
use nous.Domain.Errors.{Error, failure, Result, ok, err}

pub data Phase : Type 0 where
  ticking waiting returned : Phase

-- `started` is `w.cancel != nil`, `cancelled` whether the context of the loop is done, `ticks` how many ticks have begun.
pub record Worker : Type 0 where
  pub started : Bool
  pub cancelled : Bool
  pub loops : List Phase
  pub ticks : ℕ

-- `New`
abbrev pub new_worker : Worker
new_worker = record { started = false; cancelled = false; loops = []; ticks = 0 }

-- One loop goes from a phase to another, the others stay.
pub data Moves (p q : Phase) : List Phase → List Phase → Type 0 where
  here : (ps : List Phase) → Moves p q (p ∷ ps) (q ∷ ps)
  later : {ps qs : List Phase} (r : Phase) → Moves p q ps qs → Moves p q (r ∷ ps) (r ∷ qs)

pub data Step (w : Worker) : Worker → Type 0 where
  -- `Start`, which ticks at once, and `Start` once more
  starts :
      {v : Worker}
      → w.started ≡ false
      → v ≡ record w { started = true; loops = w.loops ++ ticking ∷ []; ticks = suc w.ticks }
      → Step w v
  starts_again : {v : Worker} → w.started ≡ true → v ≡ w → Step w v
  -- `Stop` cancels what was started; or the caller's context is done
  cancels : {v : Worker} → w.started ≡ true → v ≡ record w { cancelled = true } → Step w v
  -- `Stop` of what was not started
  stops_idle : {v : Worker} → w.started ≡ false → v ≡ w → Step w v
  -- a tick is over; the ticker's channel is taken; the context's channel is taken
  rests :
      {v : Worker} {ps : List Phase}
      → Moves ticking waiting w.loops ps
      → v ≡ record w { loops = ps }
      → Step w v
  fires :
      {v : Worker} {ps : List Phase}
      → Moves waiting ticking w.loops ps
      → v ≡ record w { loops = ps; ticks = suc w.ticks }
      → Step w v
  returns :
      {v : Worker} {ps : List Phase}
      → w.cancelled ≡ true
      → Moves waiting returned w.loops ps
      → v ≡ record w { loops = ps }
      → Step w v

pub data Steps (w : Worker) : Worker → Type 0 where
  none_yet : {v : Worker} → v ≡ w → Steps w v
  then_step : {u v : Worker} → Steps w u → Step u v → Steps w v

module _ {W R : Type 0} (evaluate : W → W × Result R) (text_of : Error → String) where
  abbrev run_error : Result R → Option Error
  run_error (ok r) = none
  run_error (err e) = some (failure (append "worker: evaluate: " (text_of e)))

  -- `RunOnce`
  unfoldable pub run_once : W → W × Option Error
  run_once w = let r = evaluate w in (r.0, run_error r.1)
