-- ===== src/Examples/Pipeline.antt =====
-- Worked inputs for internal/pipeline/evaluate.go over the in-memory store.
use nous.Prelude.{ℕ, suc, ◌≡◌, ◌≢◌, refl, none, some, List, [], ◌∷◌, arith, length}
use nous.Prelude.Int.{pos}
use nous.Prelude.Float.Milli.{Milli, num, milli_float}
use nous.Domain.Errors.{Result, failure, ok}
use nous.Risk.Engine
use nous.Intervene.Engine as Policy
use nous.Domain.Commitment.{Commitment}
use nous.Pipeline.Stored.Whole.{Apart, AllCovered}
use nous.Store.Arrange.Insertion.{insertion}
use nous.Store.Memory.Commitments.{find_active}
use nous.Store.Memory.Query.{limit_to}
use nous.Pipeline.Evaluate.{EvaluateOptions, evaluate}
use nous.Pipeline.Evaluate.Counts
use nous.Domain.Commitment.{CommitmentDraft}
use nous.Store.Memory.{State}
use nous.Pipeline.Extract.{ExtractInput}
use nous.Pipeline.Extract.Account
use nous.Pipeline.Stored.{Outside, stored}
use nous.Pipeline.Stored.Pass
use nous.Pipeline.Stored.Repository.{IsSound}
use nous.Examples.Domain.{sketch}
use nous.Examples.Risk.{worded, blip}
use nous.Examples.Store.{strokes, stocked, stocked_valid}

-- Chronos always reports one signal; identifiers are drawn from a counter.
abbrev calm : Outside Milli ℕ
calm = record {
  mnemos = none;
  chronos = some (λ x q. (x, ok (blip ∷ [])));
  praxis = none;
  cancelled = λ x. none;
  new_uuid = λ x. (suc x, suc x);
  inc_evaluations_run = λ x. x;
  observe_risk_score = λ x y. x;
  inc_interventions_created = λ x. x;
  string_of = strokes;
  seconds = λ d. num 0;
  message = worded;
}

abbrev cancelled : Outside Milli ℕ
cancelled = record calm { cancelled = λ x. some (failure "context canceled") }

abbrev one_each : EvaluateOptions
one_each = record { limit = pos 5; signal_lookback = pos 0 }

stocked-IsSound : IsSound {X = ℕ} strokes (stocked, 100)
stocked-IsSound = (stocked_valid, (refl, (refl, (refl, tt))))

drawn : (x : ℕ) → (calm.new_uuid x).0 ≢ 0
drawn x e = ground arith

pass-IsSound_example :
    IsSound {X = ℕ} strokes
      (evaluate
        (stored insertion calm)
        Engine.default_config
        Policy.default_config
        (stocked, 100)
        one_each
        2000).0
pass-IsSound_example =
    Pass.pass-IsSound insertion calm drawn Engine.default_config Policy.default_config stocked 100
      one_each 2000 stocked-IsSound

found-Apart :
    Apart (λ (c : Commitment Milli). strokes c.id) (find_active insertion stocked one_each.limit)
unfolding find_active limit_to nous.Store.Arrange.Insertion.sort_by nous.Store.Memory.Query.keep
    nous.Store.Table.values nous.Domain.Commitment.is_active nous.Store.Arrange.Insertion.insert_by
    nous.Store.Memory.Commitments.scans_before
found-Apart = ((refl, tt), (tt, tt))

reported-Apart : Apart strokes (
    (evaluate
      (stored insertion calm)
      Engine.default_config
      Policy.default_config
      (stocked, 100)
      one_each
      2000).1.decisions)
unfolding evaluate find_active nous.Pipeline.Evaluate.evaluate_all limit_to
    nous.Store.Arrange.Insertion.sort_by nous.Store.Memory.Query.keep nous.Store.Table.values
    nous.Domain.Commitment.is_active nous.Store.Arrange.Insertion.insert_by
    nous.Store.Memory.Commitments.scans_before nous.Pipeline.Evaluate.evaluate_one
    nous.Pipeline.Evaluate.after_update nous.Pipeline.Evaluate.noted
    nous.Pipeline.Evaluate.intervene nous.Pipeline.Evidence.record_decision
    nous.Pipeline.Evidence.save_built nous.Pipeline.Evidence.fetch_signals
    nous.Pipeline.Evidence.fetch_memories nous.Store.Memory.Commitments.update_risk
    nous.Store.Table.lookup nous.Store.Table.insert nous.Domain.Decision.new_decision
    nous.Domain.Decision.validate nous.Prelude.trim_space nous.Store.Memory.Decisions.save
    nous.Pipeline.Evidence.mirror_decision nous.Pipeline.Evidence.after_save
    nous.Pipeline.Evidence.filled nous.Intervene.Engine.maybe_intervene nous.Intervene.Engine.choose
    nous.Risk.Engine.evaluate_commitment nous.Store.Memory.Interventions.save
    nous.Domain.Intervention.validate nous.Domain.Intervention.new_intervention
reported-Apart = ((refl, tt), (tt, tt))

pass_covers_example :
    let done =
      evaluate
        (stored insertion calm)
        Engine.default_config
        Policy.default_config
        (stocked, 100)
        one_each
        2000 in
    (done.2 ≡ none)
    × (done.1.evaluated ≡ length (find_active insertion stocked one_each.limit))
    × (done.1.updated ≡ length (find_active insertion stocked one_each.limit))
    × AllCovered strokes Engine.default_config 2000 stocked
        (find_active insertion stocked one_each.limit)
        done.1.decisions
        done.0.0
pass_covers_example =
    Pass.pass_covers insertion calm drawn Engine.default_config Policy.default_config stocked 100
      one_each 2000 (λ x. refl) stocked-IsSound found-Apart reported-Apart

-- A model that finds one sound draft and one without an owner.
abbrev model :
    State Milli × ℕ → ExtractInput → (State Milli × ℕ) × Result (List (CommitmentDraft Milli))
model w input = (w, ok (sketch ∷ record sketch { owner_id = "" } ∷ []))

abbrev transcript : ExtractInput
transcript = record {
  owner_id = "u1";
  text = "I will send the report.";
  hints = [];
  source_refs = [];
}
