-- ===== src/Pipeline/Stored/Pass.antt =====
-- A pass of internal/pipeline/evaluate.go over the store of internal/store/memory.
use nous.Prelude.{◌≡◌, ◌≢◌, none, length, ◌∙◌, ap, sym}
use nous.Prelude.Time.{Time}
use nous.Prelude.Float.{Float64}
use nous.Domain.Errors.{ok_same}
use nous.Domain.Commitment.{Commitment}
use nous.Risk.Engine
use nous.Intervene.Engine as Policy
use nous.Store.Arrange.{Arrange}
use nous.Store.Memory.{State}
use nous.Store.Memory.Commitments.{find_active}
use nous.Pipeline.Evaluate.{EvaluateOptions, evaluate}
use nous.Pipeline.Evaluate.Keeps.{evaluate-Onward}
use nous.Pipeline.Evaluate.Full.{full_pass}
use nous.Pipeline.Stored.Whole.{Apart, AllCovered, evaluate-AllCovered}
use nous.Pipeline.Stored.{Outside, stored}
use nous.Pipeline.Stored.Repository.{IsSound, stored-Contract}

module _ {F X : Type 0} ⦃fl : Float64 F⦄ (rows : Arrange (Commitment F)) (out : Outside F X)
    (draws : (x : X) → (out.new_uuid x).0 ≢ 0) (risk : Engine.Config F)
    (policy : Policy.Config F) where
  -- A pass leaves a sound store sound, under any weights and thresholds and whatever the clients
  -- answer: every commitment still passes `Validate` and stands under its identifier. Drawn
  -- identifiers are not nil.
  pub pass-IsSound :
      (s : State F) (x : X) (opts : EvaluateOptions) (now : Time)
      → IsSound {X = X} out.string_of (s, x)
      → IsSound {X = X} out.string_of (evaluate (stored rows out) risk policy (s, x) opts now).0
  pass-IsSound s x opts now h =
      (evaluate-Onward (stored rows out) risk policy _ _ (stored-Contract rows out draws) (s, x)
          opts now).kept
        h

  -- From a sound store, unless the context is cancelled, and whatever the clients answer, a pass ends without an error and
  -- reports one decision for each commitment that `FindActive` gave, in order. At its end the row of each of these commitments in
  -- the store is the row that was there before, with the score of an assessment of the commitment at the time of the pass and with
  -- that time; the reported decision is in the store, and it says that score, its factors and the identifier of the commitment.
  -- The commitments found have different identifiers, as the keys of a map do; drawn identifiers are not nil, and those of the
  -- reported decisions differ.
  pub pass_covers :
      (s : State F) (x : X) (opts : EvaluateOptions) (now : Time)
      → ((x : X) → out.cancelled x ≡ none)
      → IsSound {X = X} out.string_of (s, x)
      → Apart (λ (c : Commitment F). out.string_of c.id) (find_active rows s opts.limit)
      → Apart out.string_of (evaluate (stored rows out) risk policy (s, x) opts now).1.decisions
      → let done = evaluate (stored rows out) risk policy (s, x) opts now in
        (done.2 ≡ none)
        × (done.1.evaluated ≡ length (find_active rows s opts.limit))
        × (done.1.updated ≡ length (find_active rows s opts.limit))
        × AllCovered out.string_of risk now s
            (find_active rows s opts.limit)
            done.1.decisions
            done.0.0
  pass_covers s x opts now c h apart fresh =
      let (cs, e, stopped, n, u, d) =
        full_pass (stored rows out) risk policy _ _ (stored-Contract rows out draws) (λ w. c w.1)
          (s, x) opts now h in
      let v = evaluate-AllCovered rows out draws risk policy c s x opts now h apart fresh in
      let same = ok_same e in (stopped, n ∙ ap length (sym same), u ∙ ap length (sym same), v)
