-- ===== src/Tests/Scheduling.antt =====
-- Examples for schedules and rollback plans.
use yoma.Prelude.{none, String, ◌≡◌, ◌⊎◌, refl, true, false, List, [], ◌∷◌, some, all}
use yoma.Result.{Error, ok, err}
use yoma.Dict
use yoma.Value.{DateTime}
use yoma.Ordering.Engine.{action_lookup}
use yoma.Rollback.Model.{
  TransactionRollbackPlan, boundary_post_init, plan_post_init, transaction_post_init,
}
use yoma.Rollback.Engine.{plan_rollback, build, made_transaction, transaction_of}
use yoma.Rollback.Once.{build_once}
use yoma.Rollback.Compensation.{IsCompensation, plan_rollback_cases}
use yoma.Schedule.Model.{ExecutionSchedule, ScheduleStatus}
use yoma.Schedule.Engine.{SchedulingEngine, moved}
use yoma.Schedule.Calls.{Op, perform_all}
use yoma.Schedule.Lifetime.{Lasts, schedule_progresses, early_schedule_waits, IsWaiting}
use yoma.Tests.Samples.{noon}
use yoma.Tests.Ordering.{plan}

plan_rollback_cases_example :
    ((e : Error) × (plan_rollback plan "MACT-B" ("MACT-A" ∷ []) ≡ err e)
      × (all (Dict.has (action_lookup plan.actions)) ("MACT-B" ∷ "MACT-A" ∷ []) ≡ false))
    ⊎ ((r : TransactionRollbackPlan) × (plan_rollback plan "MACT-B" ("MACT-A" ∷ []) ≡ ok r)
        × (all (Dict.has (action_lookup plan.actions)) ("MACT-B" ∷ "MACT-A" ∷ []) ≡ true)
        × IsCompensation "MACT-B" ("MACT-A" ∷ []) r)
plan_rollback_cases_example =
    plan_rollback_cases plan "MACT-B" ("MACT-A" ∷ []) refl (refl, (refl, tt))

abbrev pub waiting : ExecutionSchedule
waiting = record {
  schedule_id = "SCHED-MAPLAN-1-noon";
  execution_plan_id = "MAPLAN-1";
  orchestration_id = "ORCH-1";
  decision_id = "DINT-1";
  scheduled_at = noon;
  created_at = noon;
  status = ScheduleStatus.scheduled;
  ordered_action_ids = "MACT-A" ∷ "MACT-B" ∷ [];
  dependency_levels = ("MACT-A" ∷ []) ∷ ("MACT-B" ∷ []) ∷ [];
  transaction_id = some "TX-MAPLAN-1";
  transaction_boundary_id = some "TXB-MAPLAN-1";
  rollback_plan_id = some "RBPLAN-MAPLAN-1";
  requires_human_approval = true;
  executable = false;
  metadata = [];
}

abbrev engine_with : ExecutionSchedule → SchedulingEngine
engine_with s = record {
  dependency_engine = record { orders = []; analyses = [] };
  transactions = [];
  schedules = ("SCHED-MAPLAN-1-noon", s) ∷ [];
}

abbrev pub morning : DateTime
morning = record { instant = 21600000000; aware = true }

abbrev calls : List Op
calls =
    Op.readies "SCHED-MAPLAN-1-noon" morning
    ∷ Op.schedules plan noon morning []
    ∷ Op.completes "SCHED-MAPLAN-1-noon"
    ∷ []

abbrev pub noon_text : DateTime → String
noon_text at = "noon"

-- The same calls, a `clear`, and a call that enters the plan again.
abbrev calls_with_clear : List Op
calls_with_clear =
    Op.readies "SCHED-MAPLAN-1-noon" morning ∷ Op.clears ∷ Op.schedules plan noon morning [] ∷ []

schedule_progresses_example :
    Lasts
      (λ now. now ≡ morning)
      "SCHED-MAPLAN-1-noon"
      waiting
      calls_with_clear
      (perform_all noon_text (engine_with waiting) calls_with_clear)
unfolding Dict.get
schedule_progresses_example =
    schedule_progresses noon_text (λ now. now ≡ morning) "SCHED-MAPLAN-1-noon" waiting
      (engine_with waiting) calls_with_clear (refl, (tt, (tt, tt))) refl

early_schedule_waits_example :
    (t : ExecutionSchedule) × (Dict.get
        (perform_all noon_text (engine_with waiting) calls).schedules
        "SCHED-MAPLAN-1-noon"
      ≡ some t)
    × IsWaiting waiting t
unfolding Dict.get
early_schedule_waits_example =
    early_schedule_waits noon_text "SCHED-MAPLAN-1-noon" waiting (engine_with waiting) calls
      (refl, (tt, (tt, tt))) refl refl refl

abbrev dropped : ExecutionSchedule
dropped = moved waiting ScheduleStatus.cancelled

-- The first call builds a transaction of the plan's actions as they stand.
build_lem : (build plan none []).0 ≡ ok (transaction_of "MAPLAN-1" ("MACT-B" ∷ "MACT-A" ∷ []))
unfolding build made_transaction boundary_post_init plan_post_init transaction_post_init Dict.get
    Dict.put
build_lem = refl

build_once_example :
    build plan none (build plan none []).1
    ≡ (ok (transaction_of "MAPLAN-1" ("MACT-B" ∷ "MACT-A" ∷ [])), (build plan none []).1)
build_once_example =
    build_once plan none none [] (transaction_of "MAPLAN-1" ("MACT-B" ∷ "MACT-A" ∷ [])) build_lem
      refl
