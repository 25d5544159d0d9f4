-- ===== src/Coordination/Axi.antt =====
-- internal/coordination/axi.go: the same call behind the kernel of github.com/felixgeelhaar/axi-go, which is a
-- parameter: `run` is its `Execute` for the one action that is registered, `approve` its `Approve` by the session, both
-- with the text of an error. `as_map` is the type assertion on a result's data, `via_json` its way
-- through JSON, and `note` is the rationale that is written.
use Prim.Native.String.{◌++◌ as append}
use nous.Prelude.{
  Bool, true, false, Option, none, some, String, List, [], ◌∷◌, ◌⊎◌, inl, inr, map, if◌then◌else◌,
  str_eq,
}
use nous.Domain.Errors.{Uuid, Error, failure}
use nous.Domain.Intervention.{ActionRequest, ActionConstraint, PayloadValue, text, Intervention}
use nous.Coordination.{
  Fact, EvidenceRecord, Outcome, no_suggested_action, blank_outcome, keyed_request,
}

-- An item of a `[]any`: a `map[string]any`, or another value.
pub data Item : Type 0 where
  fields : List (String × PayloadValue) → Item
  other : Item

-- A value of the kernel's input: a text, the payload, the constraints as `[]ActionConstraint`, or a `[]any`.
pub data InputValue : Type 0 where
  line : String → InputValue
  payload : List (String × PayloadValue) → InputValue
  typed : List ActionConstraint → InputValue
  items : List Item → InputValue

abbrev pub Input : Type 0
Input = List (String × InputValue)

unfoldable pub field_of {ℓ} : {V : Type ℓ} → String → List (String × V) → Option V
field_of k [] = none
field_of k ((j, v) ∷ m) = let rest = field_of k m in if str_eq j k then some v else rest

-- The map that `AxiKernel.Execute` hands to the kernel.
abbrev pub axi_input : String → ActionRequest → Input
axi_input id req =
    ("intervention_id", InputValue.line id)
    ∷ ("capability", InputValue.line req.capability)
    ∷ ("payload", InputValue.payload req.payload)
    ∷ ("idempotency_key", InputValue.line req.idempotency_key)
    ∷ ("constraints", InputValue.typed req.constraints)
    ∷ []

-- The type assertions of the executor, with the zero value where they fail.
abbrev as_line : Option InputValue → String
as_line (some (InputValue.line s)) = s
as_line v = ""

abbrev as_payload : Option InputValue → List (String × PayloadValue)
as_payload (some (InputValue.payload p)) = p
as_payload v = []

abbrev as_text : Option PayloadValue → String
as_text (some (text s)) = s
as_text v = ""

-- The body of the loop over the constraints.
abbrev constraint_of : Item → List ActionConstraint → List ActionConstraint
constraint_of Item.other rest = rest
constraint_of (Item.fields m) rest =
    let k = as_text (field_of "key" m) in
    if str_eq k "" then rest else record { key = k; value = as_text (field_of "value" m) } ∷ rest

unfoldable pub constraints_from : List Item → List ActionConstraint
unfolding field_of
constraints_from [] = []
constraints_from (i ∷ is) = constraint_of i (constraints_from is)

abbrev as_constraints : Option InputValue → List ActionConstraint
as_constraints (some (InputValue.items is)) = constraints_from is
as_constraints v = []

-- The request that `executor.Execute` makes of its input.
unfoldable pub executor_request : Input → ActionRequest
unfolding field_of constraints_from
executor_request input = record {
  id = 0;
  capability = as_line (field_of "capability" input);
  payload = as_payload (field_of "payload" input);
  constraints = as_constraints (field_of "constraints" input);
  idempotency_key = as_line (field_of "idempotency_key" input);
}

-- axi-go's evidence; the value is `none` where it is no map.
pub record AxiEvidence (M : Type 0) : Type 0 where
  pub kind : String
  pub source : String
  pub value : Option (List (String × Fact M))

module _ {M : Type 0} where
  abbrev facts_of : Option (List (String × Fact M)) → List (String × Fact M)
  facts_of none = []
  facts_of (some m) = m

  abbrev rebadged : AxiEvidence M → EvidenceRecord M
  rebadged r = record { kind = r.kind; source = r.source; value = facts_of r.value }

  -- `evidenceFrom`; a nil slice and an empty one are not told apart.
  abbrev pub evidence_from : List (AxiEvidence M) → List (EvidenceRecord M)
  evidence_from rs = map rebadged rs

-- A result of the kernel, `answer` being the data of its result, if both are there; a `nil` result does not come without an error.
pub record AxiResult (M D : Type 0) : Type 0 where
  pub session_id : String
  pub requires_approval : Bool
  -- the code and the message
  pub broken : Option (String × String)
  pub answer : Option D
  pub evidence : List (AxiEvidence M)

pub record AxiKernel (M D W : Type 0) : Type 0 where
  pub run : W → Input → W × (String ⊎ AxiResult M D)
  pub approve : W → String → String → W × (String ⊎ AxiResult M D)
  pub as_map : D → Option M
  pub via_json : D → Option M

module _ {M D W : Type 0} (string_of : Uuid → String) (note : Uuid → String → String)
    (kernel : AxiKernel M D W) where
  abbrev refused : Uuid → ActionRequest → String → String → Outcome M × Option Error
  refused id req step e = (
    record {
      intervention_id = id;
      action_request = some req;
      success = false;
      output = none;
      error_message = e;
      evidence =
          record {
            kind = "nous.action.error";
            source = "nous.coordination";
            value = ("capability", Fact.text req.capability) ∷ ("error", Fact.text e) ∷ [];
          }
          ∷ [];
    },
    some (failure (append step e)),
  )

  abbrev or_json : D → Option M → Option M
  or_json d (some m) = some m
  or_json d none = kernel.via_json d

  abbrev output_of : Option D → Option M
  output_of none = none
  output_of (some d) = or_json d (kernel.as_map d)

  abbrev finished : Uuid → ActionRequest → AxiResult M D → Option (String × String) → Outcome M
  finished id req r none = record {
    intervention_id = id;
    action_request = some req;
    success = true;
    output = output_of r.answer;
    error_message = "";
    evidence = evidence_from r.evidence;
  }
  finished id req r (some (code, message)) = record {
    intervention_id = id;
    action_request = some req;
    success = false;
    output = none;
    error_message = append code (append ": " message);
    evidence = evidence_from r.evidence;
  }

  abbrev concluded :
      Uuid → ActionRequest → String → String ⊎ AxiResult M D → Outcome M × Option Error
  concluded id req step (inl e) = refused id req step e
  concluded id req step (inr r) = (finished id req r r.broken, none)

  -- After `kernel.Execute`.
  unfoldable pub approved :
      W → Uuid → ActionRequest → String ⊎ AxiResult M D → W × (Outcome M × Option Error)
  approved w id req (inl e) = (w, refused id req "coordination: axi execute: " e)
  approved w id req (inr r) =
      if r.requires_approval
      then (let a = kernel.approve w r.session_id (note id req.capability) in
          (a.0, concluded id req "coordination: axi approve: " a.1))
      else (w, concluded id req "" (inr r))

  abbrev run_keyed : W → Uuid → ActionRequest → W × (Outcome M × Option Error)
  run_keyed w id req =
      let r = kernel.run w (axi_input (string_of id) req) in approved r.0 id req r.1

  abbrev run_suggested : W → Uuid → Option ActionRequest → W × (Outcome M × Option Error)
  run_suggested w id none = (w, (blank_outcome id, some no_suggested_action))
  run_suggested w id (some action) = run_keyed w id (keyed_request string_of id action)

  unfoldable pub axi_execute : W → Intervention → W × (Outcome M × Option Error)
  unfolding approved keyed_request
  axi_execute w iv = run_suggested w iv.id iv.suggested_action
