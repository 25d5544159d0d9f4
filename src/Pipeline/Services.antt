-- ===== src/Pipeline/Services.antt =====
-- What the workflows of internal/pipeline are wired to (EvaluatorConfig, ExtractorConfig): the
-- repositories, the outside services, the context, the metrics and the source of identifiers, each as
-- a function on a world `W` that holds all of their state. An optional client that is not wired is `none`.
use nous.Prelude.{Option, String, List}
use nous.Prelude.Int.{ℤ}
use nous.Prelude.Time.{Time, Duration}
use nous.Domain.Errors.{Uuid, Error, Result}
use nous.Domain.Types.{ChronosSignal, MemoryRef}
use nous.Domain.Commitment.{Commitment}
use nous.Domain.Decision.{Decision}
use nous.Domain.Intervention.{Intervention, ActionRequest}
use nous.Ports.{SignalFilter, RecallQuery, MnemosEvent}

pub record Mnemos (F W : Type 0) : Type 0 where
  pub recall : W → RecallQuery → W × Result (List MemoryRef)
  pub append_event : W → MnemosEvent F → W × Result String

pub record Services (F W : Type 0) : Type 0 where
  pub find_active : W → ℤ → Result (List (Commitment F))
  pub update_risk : W → Uuid → F → Time → W × Option Error
  pub save_commitment : W → Commitment F → W × Option Error
  pub save_decision : W → Decision F → W × Option Error
  pub save_intervention : W → Intervention → W × Option Error
  pub mnemos : Option (Mnemos F W)
  pub chronos : Option (W → SignalFilter → W × Result (List (ChronosSignal F)))
  -- `DryRun`; its result is not read
  pub praxis : Option (W → ActionRequest → W)
  -- `ctx.Err()`
  pub cancelled : W → Option Error
  -- `uuid.New()`
  pub new_uuid : W → Uuid × W
  -- the metrics; the identity where none are wired
  pub inc_evaluations_run : W → W
  pub observe_risk_score : W → F → W
  pub inc_interventions_created : W → W
  -- `uuid.UUID.String`, `time.Duration.Seconds`, and the `fmt.Sprintf` of a nudge's message
  pub string_of : Uuid → String
  pub seconds : Duration → F
  pub message : String → F → F → String → String
