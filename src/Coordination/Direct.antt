-- ===== src/Coordination/Direct.antt =====
-- internal/coordination/direct.go. `praxis` is `Execute` of the client, on a world `W`, with the text of its error.
use Prim.Native.String.{◌++◌ as append}
use nous.Prelude.{false, Option, none, some, String, List, [], ◌∷◌, ◌⊎◌, inl, inr}
use nous.Domain.Errors.{Uuid, Error, failure}
use nous.Domain.Intervention.{ActionRequest, Intervention}
use nous.Coordination.{
  ExecutionResult, Fact, EvidenceRecord, Outcome, no_suggested_action, blank_outcome, keyed_request,
}

module _ {M W : Type 0} (string_of : Uuid → String)
    (praxis : W → ActionRequest → W × (String ⊎ ExecutionResult M)) where
  abbrev direct_evidence : String → List (String × Fact M) → EvidenceRecord M
  direct_evidence kind value = record {
    kind = kind;
    source = "nous.coordination.direct";
    value = value;
  }

  -- The outcome of an error of the client, and of a result.
  abbrev pub from_praxis :
      Uuid → ActionRequest → String ⊎ ExecutionResult M → Outcome M × Option Error
  from_praxis id req (inl e) = (
    record {
      intervention_id = id;
      action_request = some req;
      success = false;
      output = none;
      error_message = e;
      evidence =
          direct_evidence "nous.action.error"
            (("capability", Fact.text req.capability) ∷ ("error", Fact.text e) ∷ [])
          ∷ [];
    },
    some (failure (append "coordination: praxis execute: " e)),
  )
  from_praxis id req (inr r) = (
    record {
      intervention_id = id;
      action_request = some req;
      success = r.success;
      output = r.output;
      error_message = r.error;
      evidence =
          direct_evidence "nous.action.executed" (
            ("capability", Fact.text r.capability)
            ∷ ("idempotency_key", Fact.text r.idempotency_key)
            ∷ ("success", Fact.flag r.success)
            ∷ ("executed_at", Fact.instant r.executed_at)
            ∷ [])
          ∷ [];
    },
    none,
  )

  abbrev pub run_request : W → Uuid → ActionRequest → W × (Outcome M × Option Error)
  run_request w id req = let r = praxis w req in (r.0, from_praxis id req r.1)

  abbrev pub run_action : W → Uuid → Option ActionRequest → W × (Outcome M × Option Error)
  run_action w id none = (w, (blank_outcome id, some no_suggested_action))
  run_action w id (some action) = run_request w id (keyed_request string_of id action)

  unfoldable pub direct_execute : W → Intervention → W × (Outcome M × Option Error)
  unfolding keyed_request
  direct_execute w iv = run_action w iv.id iv.suggested_action
