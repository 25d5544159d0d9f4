-- ===== src/Store/Memory.antt =====
-- internal/store/memory/state.go, conn.go: the maps behind the in-memory repositories. Rows are values
-- here, so the defensive copies of state.go are the identity and are left out.
pub mod Query
pub mod Commitments
pub mod Decisions
pub mod Interventions
pub mod Goals
pub mod Tasks
pub mod Laws
pub mod Scan
pub mod Keyed
use nous.Prelude.{List, []}
use nous.Domain.Commitment.{Commitment}
use nous.Domain.Decision.{Decision}
use nous.Domain.Intervention.{Intervention}
use nous.Domain.Goal.{Goal}
use nous.Domain.Task.{Task}
use nous.Store.Table.{Table}

pub record State (F : Type 0) : Type 0 where
  pub commitments : Table (Commitment F)
  pub decisions : Table (Decision F)
  pub interventions : Table Intervention
  pub goals : Table Goal
  pub tasks : Table Task

-- `New`.
abbrev pub new_state : {F : Type 0} → State F
new_state = record { commitments = []; decisions = []; interventions = []; goals = []; tasks = [] }
