-- ===== src/Schedule/Model.antt =====
-- `ExecutionSchedule` with the checks of its constructor.
use mathlib.Core.List.{flatten}
use yoma.Prelude.{
  String, Bool, true, false, not, List, Option, is_empty, starts_with, is_unique, ◌||◌,
}
use yoma.Result.{Result, ok, value_error, raise_if, raise_unless, ◌>>◌}
use yoma.Value.{Mapping, DateTime}
use yoma.Ordering.Model.{ExecutionOrder, same_texts}
use yoma.Rollback.Model.{TransactionIntelligence}

pub data ScheduleStatus : Type 0 where
  scheduled ready cancelled completed : ScheduleStatus

abbrev pub is_scheduled : ScheduleStatus → Bool
is_scheduled scheduled = true
is_scheduled _ = false

abbrev pub is_ready : ScheduleStatus → Bool
is_ready ready = true
is_ready _ = false

-- `status in {"completed", "cancelled"}`
abbrev pub is_closed : ScheduleStatus → Bool
is_closed completed = true
is_closed cancelled = true
is_closed _ = false

pub record ExecutionSchedule : Type 0 where
  pub schedule_id : String
  pub execution_plan_id : String
  pub orchestration_id : String
  pub decision_id : String
  pub scheduled_at : DateTime
  pub created_at : DateTime
  pub status : ScheduleStatus
  pub ordered_action_ids : List String
  pub dependency_levels : List (List String)
  pub transaction_id : Option String
  pub transaction_boundary_id : Option String
  pub rollback_plan_id : Option String
  pub requires_human_approval : Bool
  pub executable : Bool
  pub metadata : Mapping

unfoldable pub schedule_post_init : ExecutionSchedule → Result ExecutionSchedule
schedule_post_init s = do
  raise_unless (starts_with s.schedule_id "SCHED-")
      (value_error "schedule_id must start with SCHED-")
  raise_if (is_empty s.execution_plan_id) (value_error "execution_plan_id is required")
  raise_if (is_empty s.orchestration_id) (value_error "orchestration_id is required")
  raise_if (is_empty s.decision_id) (value_error "decision_id is required")
  raise_if (not s.scheduled_at.aware || not s.created_at.aware)
      (value_error "scheduled_at and created_at must be timezone-aware")
  raise_unless (is_unique s.ordered_action_ids) (value_error "ordered_action_ids must be unique")
  raise_unless (same_texts (flatten s.dependency_levels) s.ordered_action_ids)
      (value_error "dependency_levels must flatten to ordered_action_ids")
  raise_unless s.requires_human_approval
      (value_error "execution scheduling always requires human approval")
  raise_if s.executable (value_error "execution scheduling is never executable")
  ok s

pub record ExecutionSchedulingResult : Type 0 where
  pub schedule : ExecutionSchedule
  pub execution_order : ExecutionOrder
  pub transaction : TransactionIntelligence
  pub requires_human_approval : Bool
  pub executable : Bool

unfoldable pub result_post_init : ExecutionSchedulingResult → Result ExecutionSchedulingResult
result_post_init r = do
  raise_unless r.requires_human_approval (value_error "scheduling result requires human approval")
  raise_if r.executable (value_error "scheduling result is never executable")
  ok r
