-- ===== src/Examples/Shell.antt =====
-- A worker that is started and stopped, and an action that goes to Praxis.
use nous.Prelude.{
  ℕ, true, false, Option, none, some, String, List, [], ◌∷◌, ◌⊎◌, inl, inr, ◌≡◌, refl,
}
use nous.Domain.Errors.{Uuid}
use nous.Domain.Intervention.{ActionRequest, Intervention}
use nous.Examples.Aggregates.{reminder}
use nous.Worker.{ticking, returned, Worker, new_worker, Step, Steps}
use nous.Worker.Shutdown.{IsSingle, IsStopped, Steps-IsSingle, Steps-IsStopped, shuts_down}
use nous.Coordination.{ExecutionResult, keyed_request}
use nous.Coordination.Axi.{Input, AxiResult, AxiKernel, axi_execute, executor_request}
use nous.Coordination.Requests.{Forwards, axi_execute_strips}

abbrev running : Worker
running = record { started = true; cancelled = false; loops = ticking ∷ []; ticks = 1 }

abbrev dying : Worker
dying = record running { cancelled = true }

started : Steps new_worker running
started = Steps.then_step (Steps.none_yet refl) (Step.starts refl refl)

cancelled : Steps new_worker dying
cancelled = Steps.then_step started (Step.cancels refl refl)

Steps-IsSingle_example : IsSingle running
Steps-IsSingle_example = Steps-IsSingle started

shuts_down_example : (v : Worker) × Steps dying v × IsStopped v × (v.ticks ≡ dying.ticks)
shuts_down_example = shuts_down cancelled refl refl

abbrev dead : Worker
dead = record dying { loops = returned ∷ [] }

again : Steps dead dead
again = Steps.then_step (Steps.none_yet refl) (Step.starts_again refl refl)

Steps-IsStopped_example : IsStopped dead × (dead.ticks ≡ dead.ticks)
Steps-IsStopped_example = Steps-IsStopped again (record { was_started = refl; gone = (refl, tt) })

-- Mail that must go to one address, without a key.
abbrev mail : ActionRequest
mail = record {
  id = 9;
  capability = "mail.send";
  payload = [];
  constraints = record { key = "to"; value = "ada" } ∷ [];
  idempotency_key = "";
}

abbrev accepted : Intervention
accepted = record reminder { suggested_action = some mail }

abbrev name_of : Uuid → String
name_of id = "i-4"

-- The world is what Praxis was asked.
abbrev asked :
    List ActionRequest → ActionRequest → List ActionRequest × (String ⊎ ExecutionResult ℕ)
asked seen req = (req ∷ seen, inl "unreachable")

-- The world with what the kernel holds back.
abbrev Held : Type 0
Held = List ActionRequest × Option Input

abbrev answer : AxiResult ℕ ℕ
answer = record {
  session_id = "s";
  requires_approval = true;
  broken = none;
  answer = none;
  evidence = [];
}

take_held : Held → Held
take_held (seen, none) = (seen, none)
take_held (seen, some input) = (executor_request input ∷ seen, none)

abbrev asked_held : Held → ActionRequest → Held × (String ⊎ ExecutionResult ℕ)
asked_held w req = ((req ∷ w.0, none), inl "unreachable")

abbrev holding : AxiKernel ℕ ℕ Held
holding = record {
  run = λ w input. ((w.0, some input), inr answer);
  approve = λ w session reason. (take_held w, inr answer);
  as_map = λ d. none;
  via_json = λ d. none;
}

forwards : Forwards asked_held holding
unfolding take_held
forwards = record {
  held = λ w input. answer;
  queued = λ w input. (w.0, some input);
  holds = λ w input. refl;
  asks = λ w input. refl;
  runs = λ w input reason. refl;
}

axi_execute_strips_example :
    (axi_execute name_of (λ id c. c) holding ([], none) accepted).0
    ≡ (asked_held ([], none) (record (keyed_request name_of 9 mail) { id = 0; constraints = [] })).0
axi_execute_strips_example =
    axi_execute_strips name_of asked_held (λ id c. c) holding forwards ([], none) accepted mail refl
