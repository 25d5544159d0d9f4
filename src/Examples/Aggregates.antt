-- ===== src/Examples/Aggregates.antt =====
-- Worked inputs for decisions, plans, interventions, goals and tasks of internal/domain.
use nous.Prelude.{◌≡◌, refl, none, some, [], ◌∷◌}
use nous.Prelude.Float.Milli.{Milli, num, milli_float}
use nous.Prelude.Int.{pos}
use nous.Domain.Types.{priority_high, priority_normal}
use nous.Domain.Decision.{Decision}
use nous.Domain.Goal.{Goal, GoalStatus}
use nous.Domain.Plan.{Plan, PlanStatus}
use nous.Domain.Task.{Task, TaskStatus}
use nous.Domain.Intervention
use nous.Domain.Intervention.{Intervention, InterventionStatus, InterventionType}

abbrev verdict : Decision Milli
verdict = record {
  id = 3;
  subject = "commitment.evaluate";
  context_refs = [];
  inputs = [];
  weights = [];
  outcome = [];
  reason = "Risk evaluated.";
  confidence = num 900;
  created_at = 10;
}

-- A plan whose only step has no description is refused.
abbrev blank_plan : Plan
blank_plan = record {
  id = 4;
  goal_id = 5;
  status = PlanStatus.draft;
  steps =
      record {
        id = "s1";
        order = pos 0;
        description = "";
        required_capability = none;
        depends_on = [];
      }
      ∷ [];
  created_at = 10;
  updated_at = 10;
}

abbrev pub reminder : Intervention
reminder = record {
  id = 9;
  commitment_id = some 7;
  task_id = none;
  type = InterventionType.nudge;
  message = "still on it?";
  suggested_action = none;
  status = InterventionStatus.pending;
  triggered_at = 50;
  resolved_at = none;
}

reminder_valid : Intervention.validate reminder ≡ none
unfolding Intervention.validate
reminder_valid = refl

abbrev ambition : Goal
ambition = record {
  id = 5;
  owner_id = "u1";
  title = "ship it";
  description = "";
  priority = priority_high;
  status = GoalStatus.opened;
  source_refs = [];
  created_at = 10;
  updated_at = 10;
}

abbrev chore : Task
chore = record {
  id = 6;
  goal_id = some 5;
  plan_id = none;
  commitment_id = none;
  title = "write";
  description = "";
  assigned_to = none;
  status = TaskStatus.pending;
  priority = priority_normal;
  due_at = none;
  created_at = 10;
  updated_at = 10;
}
