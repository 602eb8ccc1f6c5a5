-- ===== src/Tests/Admission.antt =====
-- An example for the admission of a plan to the schedule.
use mathlib.Core.List.{flatten}
use yoma.Prelude.{◌≡◌, refl, true, [], ◌∷◌, is_nil}
use yoma.Result.{ok}
use yoma.Dict
use yoma.Sorted.{sort_by, insert_by}
use yoma.Ordering.Levels.{level_from, ready, waiting}
use yoma.Ordering.Model.{ExecutionOrder, order_post_init}
use yoma.Ordering.Engine.{order, order_new, missing_of, levelled_order, save_order}
use yoma.Rollback.Model.{
  TransactionIntelligence, boundary_post_init, plan_post_init, transaction_post_init,
}
use yoma.Rollback.Engine.{build, made_transaction, transaction_of}
use yoma.Schedule.Model.{schedule_post_init, ExecutionSchedulingResult, result_post_init}
use yoma.Schedule.Engine.{SchedulingEngine, enter, schedule_of, result_of, schedule}
use yoma.Schedule.Admission.{IsAdmitted, schedule_admits}
use yoma.Tests.Samples.{noon}
use yoma.Tests.Ordering.{plan}
use yoma.Tests.Scheduling.{morning, noon_text}

abbrev pub idle : SchedulingEngine
idle = record {
  dependency_engine = record { orders = []; analyses = [] };
  transactions = [];
  schedules = [];
}

abbrev ordered : ExecutionOrder
ordered = levelled_order "MAPLAN-1" (("MACT-A" ∷ []) ∷ ("MACT-B" ∷ []) ∷ [])

abbrev transaction : TransactionIntelligence
transaction = transaction_of "MAPLAN-1" ("MACT-A" ∷ "MACT-B" ∷ [])

abbrev admitted : ExecutionSchedulingResult
admitted =
    result_of (schedule_of "SCHED-MAPLAN-1-noon" plan noon morning [] ordered transaction) ordered
      transaction

returned_lem : (schedule noon_text plan noon morning [] idle).0 ≡ ok admitted
unfolding schedule order order_new missing_of levelled_order save_order order_post_init level_from
    ready waiting sort_by insert_by build made_transaction boundary_post_init plan_post_init
    transaction_post_init enter schedule_post_init result_post_init Dict.get Dict.put flatten
returned_lem = refl

schedule_admits_example :
    IsAdmitted plan admitted.schedule × (is_nil (missing_of plan.actions) ≡ true)
unfolding Dict.get
schedule_admits_example =
    schedule_admits noon_text plan noon morning [] idle admitted refl refl refl returned_lem
