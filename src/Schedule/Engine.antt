-- ===== src/Schedule/Engine.antt =====
-- `ExecutionSchedulingEngine`, over the engines that order a plan and build its transaction.
use yoma.Prelude.{
  String, true, false, not, [], Option, none, some, concat, is_nil, ◌||◌, if◌then◌else◌,
}
use yoma.Result.{Result, ok, err, value_error, key_error, raise_if, raise_unless}
use yoma.Exec.{Exec, return, lift, gets, modify, ◌>>=◌, ◌>>◌}
use yoma.Dict
use yoma.Dict.{Dict}
use yoma.Value.{Mapping, DateTime, earlier}
use yoma.MultiAction.Model.{MultiActionExecutionPlan}
use yoma.Ordering.Model.{ExecutionOrder}
use yoma.Ordering.Engine as Ordering
use yoma.Ordering.Engine.{order}
use yoma.Rollback.Model.{TransactionIntelligence}
use yoma.Rollback.Engine.{build}
use yoma.Schedule.Model.{
  ScheduleStatus, scheduled, ready, cancelled, completed, is_scheduled, is_ready, is_closed,
  ExecutionSchedule, schedule_post_init, ExecutionSchedulingResult, result_post_init,
}

pub record SchedulingEngine : Type 0 where
  pub dependency_engine : Ordering.Engine
  pub transactions : Dict TransactionIntelligence
  pub schedules : Dict ExecutionSchedule

-- A call of one of the two engines.
abbrev pub in_dependency {ℓ} : {A : Type ℓ} → Exec Ordering.Engine A → Exec SchedulingEngine A
in_dependency m s =
    let (r, engine) = m s.dependency_engine in (r, record s { dependency_engine = engine })

abbrev pub in_transactions {ℓ} :
    {A : Type ℓ} → Exec (Dict TransactionIntelligence) A → Exec SchedulingEngine A
in_transactions m s = let (r, d) = m s.transactions in (r, record s { transactions = d })

abbrev pub result_of :
    ExecutionSchedule → ExecutionOrder → TransactionIntelligence → ExecutionSchedulingResult
result_of s o t = record {
  schedule = s;
  execution_order = o;
  transaction = t;
  requires_human_approval = true;
  executable = false;
}

-- The schedule of a plan that `schedule` enters.
abbrev pub schedule_of :
    String
    → MultiActionExecutionPlan
    → DateTime
    → DateTime
    → Mapping
    → ExecutionOrder
    → TransactionIntelligence
    → ExecutionSchedule
schedule_of id p scheduled_at created_at metadata o t = record {
  schedule_id = id;
  execution_plan_id = p.execution_plan_id;
  orchestration_id = p.orchestration_id;
  decision_id = p.decision_id;
  scheduled_at = scheduled_at;
  created_at = created_at;
  status = scheduled;
  ordered_action_ids = o.ordered_action_ids;
  dependency_levels = o.dependency_levels;
  transaction_id = some t.transaction_id;
  transaction_boundary_id = some t.boundary.boundary_id;
  rollback_plan_id = some t.rollback_plan.rollback_plan_id;
  requires_human_approval = true;
  executable = false;
  metadata = metadata;
}

-- `ExecutionSchedule(...)`, stored under an id and returned.
unfoldable pub enter : String → ExecutionSchedule → Exec SchedulingEngine ExecutionSchedule
enter id s = do
  s' ← lift (schedule_post_init s)
  modify (λ e. record e { schedules = Dict.put e.schedules id s' })
  return s'

-- The schedule that stands under the id already, or a new one.
abbrev pub known_or_enter :
    String → ExecutionSchedule → Option ExecutionSchedule → Exec SchedulingEngine ExecutionSchedule
known_or_enter id new (some old) = return old
known_or_enter id new none = enter id new

module _ (strftime : DateTime → String) where
  abbrev pub schedule_id : MultiActionExecutionPlan → DateTime → String
  schedule_id p at = concat "SCHED-" (concat p.execution_plan_id (concat "-" (strftime at)))

  unfoldable pub schedule :
      MultiActionExecutionPlan
      → DateTime
      → DateTime
      → Mapping
      → Exec SchedulingEngine ExecutionSchedulingResult
  schedule p scheduled_at created_at metadata = do
    lift (
        raise_if (not scheduled_at.aware || not created_at.aware)
          (value_error "scheduled_at and created_at must be timezone-aware"))
    lift (
        raise_if (earlier scheduled_at created_at)
          (value_error "scheduled_at cannot be earlier than created_at"))
    o ← in_dependency (order p)
    lift (
        raise_unless (is_nil o.blocked_action_ids)
          (value_error "cannot schedule a plan with blocked actions"))
    lift (
        raise_unless (is_nil o.missing_dependency_ids)
          (value_error "cannot schedule a plan with missing dependencies"))
    t ← in_transactions (build p (some o))
    old ← gets (λ e. Dict.get e.schedules (schedule_id p scheduled_at))
    s ←
        known_or_enter (schedule_id p scheduled_at)
          (schedule_of (schedule_id p scheduled_at) p scheduled_at created_at metadata o t) old
    lift (result_post_init (result_of s o t))

-- `get`, which raises where there is none.
abbrev pub found : String → Option ExecutionSchedule → Result ExecutionSchedule
found id none = err (key_error (concat "unknown schedule: " id))
found id (some s) = ok s

unfoldable pub get : String → Exec SchedulingEngine ExecutionSchedule
get id e = (found id (Dict.get e.schedules id), e)

-- A schedule with another status; the two flags are set again.
abbrev pub moved : ExecutionSchedule → ScheduleStatus → ExecutionSchedule
moved s status = record s { status = status; requires_human_approval = true; executable = false }

-- The method `ready`.
unfoldable pub make_ready : String → DateTime → Exec SchedulingEngine ExecutionSchedule
make_ready id now = do
  s ← get id
  lift (raise_unless now.aware (value_error "now must be timezone-aware"))
  if not (is_scheduled s.status)
      then return s
      else if earlier now s.scheduled_at
      then return s
      else enter id (moved s ready)

unfoldable pub cancel : String → Exec SchedulingEngine ExecutionSchedule
cancel id = do s ← get id; if is_closed s.status then return s else enter id (moved s cancelled)

unfoldable pub complete : String → Exec SchedulingEngine ExecutionSchedule
complete id = do
  s ← get id
  lift (
      raise_unless (is_ready s.status)
        (value_error "only a ready schedule can be marked completed"))
  enter id (moved s completed)

unfoldable pub clear : Exec SchedulingEngine (Unit {0})
clear = modify (λ e. record e { schedules = [] })
