-- ===== src/Coordination/Requests.antt =====
-- internal/coordination: what reaches Praxis, and what comes back, by the two kernels.
use nous.Prelude.{
  true, false, some, String, [], ◌⊎◌, inl, inr, ◌≡◌, refl, sym, ap, ◌∙◌, Bool-cases, str_eq,
}
use nous.Domain.Errors.{Uuid}
use nous.Domain.Intervention.{ActionRequest, Intervention}
use nous.Coordination.{ExecutionResult, keyed_request}
use nous.Coordination.Direct.{direct_execute, run_request}
use nous.Coordination.Axi.{
  Input, axi_input, executor_request, field_of, constraints_from, AxiResult, AxiKernel, axi_execute,
  approved,
}

-- The request `req` is the action `a`, with a key.
pub record IsKeyed (a req : ActionRequest) : Type 0 where
  pub keyed : str_eq req.idempotency_key "" ≡ false
  pub kept_key : str_eq a.idempotency_key "" ≡ false → req ≡ a
  pub same_id : req.id ≡ a.id
  pub same_capability : req.capability ≡ a.capability
  pub same_payload : req.payload ≡ a.payload
  pub same_constraints : req.constraints ≡ a.constraints

keyed_request-IsKeyed :
    (string_of : Uuid → String) (id : Uuid) (a : ActionRequest)
    → str_eq (string_of id) "" ≡ false
    → IsKeyed a (keyed_request string_of id a)
unfolding keyed_request
keyed_request-IsKeyed string_of id a h = elim (Bool-cases (str_eq a.idempotency_key "")) [
  | inl e ↦ rw e record {
    keyed = h;
    kept_key = λ k. (let z : true ≡ false = sym e ∙ k in cc);
    same_id = refl;
    same_capability = refl;
    same_payload = refl;
    same_constraints = refl;
  }
  | inr e ↦ rw e record {
    keyed = e;
    kept_key = λ k. refl;
    same_id = refl;
    same_capability = refl;
    same_payload = refl;
    same_constraints = refl;
  }
]

-- The executor reads back all but the constraints and the identifier: it expects the constraints in another type than
-- the one that the kernel is handed.
axi_request :
    (id : String) (req : ActionRequest)
    → executor_request (axi_input id req) ≡ record req { id = 0; constraints = [] }
unfolding executor_request field_of constraints_from
axi_request id req = refl

module _ {M W : Type 0} (praxis : W → ActionRequest → W × (String ⊎ ExecutionResult M)) where
  -- The kernel keeps the action back for approval, and runs it through the executor once it is approved.
  pub record Forwards {D : Type 0} (kernel : AxiKernel M D W) : Type 0 where
    pub held : W → Input → AxiResult M D
    pub queued : W → Input → W
    pub holds : (w : W) (input : Input) → kernel.run w input ≡ (queued w input, inr (held w input))
    pub asks : (w : W) (input : Input) → (held w input).requires_approval ≡ true
    pub runs :
        (w : W) (input : Input) (reason : String)
        → (kernel.approve (queued w input) (held w input).session_id reason).0
          ≡ (praxis w (executor_request input)).0

module _ {M W : Type 0} (string_of : Uuid → String)
    (praxis : W → ActionRequest → W × (String ⊎ ExecutionResult M)) where
  -- The direct kernel asks Praxis once, with the suggested action as it is but for a key, which the intervention's
  -- identifier stands in for where there is none; so the key that Praxis sees is never empty.
  pub direct_execute-IsKeyed :
      (w : W) (iv : Intervention) (a : ActionRequest)
      → iv.suggested_action ≡ some a
      → str_eq (string_of iv.id) "" ≡ false
      → (req : ActionRequest) × IsKeyed a req
        × (direct_execute string_of praxis w iv ≡ run_request string_of praxis w iv.id req)
  unfolding direct_execute
  direct_execute-IsKeyed w iv a h k =
      (keyed_request string_of iv.id a, keyed_request-IsKeyed string_of iv.id a k, rw h refl)

  module _ {D : Type 0} (note : Uuid → String → String) (kernel : AxiKernel M D W)
      (f : Forwards praxis kernel) where
    approved_world :
        (w : W) (id : Uuid) (req : ActionRequest) (input : Input)
        → (approved string_of note kernel (f.queued w input) id req (inr (f.held w input))).0
          ≡ (praxis w (executor_request input)).0
    unfolding approved
    approved_world w id req input = rw (f.asks w input) (f.runs w input (note id req.capability))

    -- Behind a kernel that hands its input on as it is, Praxis is asked with the capability, the payload and the key of
    -- the keyed action, but with none of its constraints and without its identifier.
    pub axi_execute_strips :
        (w : W) (iv : Intervention) (a : ActionRequest)
        → iv.suggested_action ≡ some a
        → (axi_execute string_of note kernel w iv).0
          ≡ (praxis w (record (keyed_request string_of iv.id a) { id = 0; constraints = [] })).0
    unfolding axi_execute
    axi_execute_strips w iv a h =
        let req = keyed_request string_of iv.id a in
        let input = axi_input (string_of iv.id) req in
        rw h (
          rw (f.holds w input) (
            approved_world w iv.id req input
            ∙ ap (λ r. (praxis w r).0) (axi_request (string_of iv.id) req)))
