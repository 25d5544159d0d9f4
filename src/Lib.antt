-- ===== src/Lib.antt =====
-- Nous, a decision engine that tracks commitments: it stores what people promised, scores the risk
-- that a promise is missed, and decides when to interrupt. This library models its Go core.
--
-- The parts and how they meet:
-- * internal/domain holds the aggregates. Each has a status type with a table of legal edges, a
--   `Validate`, a constructor that validates, and a transition that is refused off the table. They are
--   in Domain: Errors and Types for errors.go and types.go, then Commitment, Decision, Goal, Plan, Task,
--   Assignment and Intervention, each with Lifecycle (the edges as a relation, and what calls can reach)
--   and Validity (the stored fields). Domain.Lifecycle has what all status machines share. A Go method
--   is a function of the same name in snake case: `CanTransitionTo` is `can_transition_to`.
-- * internal/risk/engine.go scores a commitment (Risk.Engine), and internal/intervention/engine.go turns
--   a score into an intervention or into silence (Intervene.Engine).
-- * internal/store/memory keeps the aggregates in maps (Store): Table is a map, Arrange is iteration
--   order and `sort.Slice`, and Store.Memory has one module for each repository.
-- * internal/pipeline/evaluate.go runs a pass over the active commitments (Pipeline.Evidence for what it
--   gathers and records, Pipeline.Evaluate for the loop) and internal/pipeline/extract.go turns drafts into commitments (Pipeline.Extract). Both work on the
--   services of Pipeline.Services: repositories, clients, metrics and identifiers as functions on a
--   world that holds all their state. Pipeline.Evaluate.Contract is the interface between the pass and
--   its services; Pipeline.Stored fills it with the repositories of internal/store/memory, as
--   cmd/nous/main.go wires them. Ports has the filters and queries of internal/ports/interfaces.go.
-- * internal/circuit/breaker.go guards outside calls (Circuit.Breaker). `Call` is cut at its locks:
--   Sequential runs whole calls one after another, Interleaving lets other calls run between two locks
--   of one call, as a step relation over any number of calls.
-- * internal/llm turns a text into drafts (Llm): Parse reads a model's reply, Context cuts a text to the window of
--   the provider, Prompt builds the prompt, Extractor and Router are the extractors of llm_extractor.go, scripted.go and
--   ab_prompt.go. Pipeline.Extract takes any of them as its model.
-- * internal/config/config.go reads the environment (Settings), with internal/store/store.go's `Open`
--   (Settings.Backend) and the overrides of the engines' settings in cmd/nous/main.go (Settings.Override). Settings.Spelled
--   has the environment that spells out a configuration.
-- * internal/auth issues and verifies tokens (Auth) and rotates their keys (Auth.Rotator). Auth.Token is the interface to
--   the JWT library; Auth.Token.Sample shows that its laws can be met. Auth.Gate has the middlewares of
--   internal/transport/http/auth.go, which let a request through or refuse it, Auth.Interceptor the interceptors of
--   internal/transport/grpc/auth.go, and Auth.Verifier the keys that cmd/nous/main.go reads from the settings.
-- * internal/transport/http/ratelimit.go has a token bucket for each client (RateLimit), in front of the handlers.
-- * internal/coordination hands an accepted action to Praxis (Coordination), by the kernel of direct.go or by that of
--   axi.go. internal/worker/worker.go repeats the pass (Worker): its steps are those of any number of callers of `Start`
--   and `Stop` and of the loops.
-- * Prelude has the shared helpers: tests and lists over native numbers, text, integers, time and IEEE
--   numbers. Examples applies the theorems to concrete data.
--
-- How the program's values are modelled:
-- * `float64` is any carrier with the operations and IEEE laws of Prelude.Float, NaN included: the order
--   and what rounding keeps. Prelude.Float.Milli shows that these laws can be met together.
-- * A time is a number of nanoseconds and a duration a signed one; `Sub` saturates as in Go. `UTC` is the
--   identity. Counters of the program that only grow one by one are unbounded numbers.
-- * A UUID is its 128 bits as a number, nil being 0; a drawn one is an argument or comes from the world.
--   `uuid.UUID.String` is an argument, and where it matters different identifiers have different texts.
-- * `fmt.Sprintf` of a message is an argument. `sort.Slice` is any function with its documented
--   contract; Store.Arrange.Insertion is one.
-- * Errors are values: the sentinel with what the callers wrap into it. Records are values, so the
--   defensive copies of internal/store/memory/state.go are the identity.
-- * Every loop of the program runs over a finite list and is structural recursion; there is no fuel.
--
-- Not modelled: the SQL stores, the gRPC and HTTP servers and clients, the model
-- providers, golden datasets, CEL validation rules and observability. They are input and output, or
-- lie outside the core above. The nil checks of the constructors, log lines and tracing spans are left out as well.
-- A text is a native string, so invalid UTF-8 is left out; a Go `int` is an integer that does not wrap around, the
-- program's counts being far below 2^62.
pub mod Prelude
pub mod Domain
pub mod Risk
pub mod Intervene
pub mod Circuit
pub mod Examples
pub mod Llm
pub mod RateLimit
pub mod Worker
pub mod Auth
pub mod Coordination
pub mod Settings
pub mod Ports
pub mod Store
pub mod Pipeline
