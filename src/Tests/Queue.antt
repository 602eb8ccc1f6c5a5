-- ===== src/Tests/Queue.antt =====
-- Examples for the human approval queue.
use mathlib.Core.List.{Perm, flatten}
use yoma.Prelude.{String, ◌≡◌, refl, true, [], ◌∷◌, some, List, keep}
use yoma.Result.{ok}
use yoma.Dict
use yoma.Approval.Model.{is_pending}
use yoma.Approval.Lifecycle.{Decision}
use yoma.Approval.History.{decide_all, first_sound, settle_by}
use yoma.Schedule.Model.{schedule_post_init}
use yoma.ApprovalQueue.Model.{ApprovalQueueItem, IsItem, requires_review}
use yoma.ApprovalQueue.Queue.{item_of, enqueue, prioritized_pending, replaced}
use yoma.ApprovalQueue.Calls.{Op, perform_all, decisions_for}
use yoma.ApprovalQueue.Refines.{queue_refines_workflows}
use yoma.ApprovalQueue.Precedes.{AreInTurn}
use yoma.ApprovalQueue.Reviewed.{first_decision_settles, pending_by_priority}
use yoma.Tests.Samples.{noon, plan, plan-IsPlan, workflow, workflow-IsWorkflow}
use yoma.Tests.Scheduling.{waiting}

abbrev key : String
key = "AQITEM-SCHED-MAPLAN-1-noon"

abbrev item : ApprovalQueueItem
item = item_of waiting plan workflow

item-IsItem : IsItem item
item-IsItem = record {
  queue_item_id = refl;
  schedule_id = refl;
  execution_plan_id = refl;
  plan_id = refl;
  decision_id = refl;
  aware = refl;
  same_plan = refl;
  same_decision = refl;
  same_status = refl;
  human = refl;
  inert = refl;
  workflow = workflow-IsWorkflow;
}

-- A nameless reviewer, a decision on another id, an approval, a second entry, and a late rejection.
abbrev calls : List Op
calls =
    Op.decides key (Decision.approval "" noon "ok")
    ∷ Op.decides "AQITEM-OTHER" (Decision.rejection "bob" noon "no")
    ∷ Op.decides key (Decision.approval "ann" noon "ok")
    ∷ Op.enqueues waiting plan
    ∷ Op.decides key (Decision.rejection "bob" noon "no")
    ∷ []

queue_refines_workflows_example :
    Dict.get (perform_all ((key, item) ∷ []) calls) key
    ≡ some (replaced item (decide_all workflow (decisions_for key calls)))
unfolding Dict.get
queue_refines_workflows_example =
    queue_refines_workflows key ((key, item) ∷ []) item calls item-IsItem refl

accepted_lem : schedule_post_init waiting ≡ ok waiting
unfolding schedule_post_init flatten
accepted_lem = refl

first_decision_settles_example :
    (i : ApprovalQueueItem) × ((enqueue waiting plan []).0 ≡ ok i)
    × (requires_review i ≡ true)
    × (Dict.get (perform_all (enqueue waiting plan []).1 calls) key
        ≡ some (replaced i (settle_by i.workflow (first_sound (decisions_for key calls)))))
unfolding Dict.get
first_decision_settles_example =
    first_decision_settles [] waiting plan calls accepted_lem plan-IsPlan refl refl

pending_by_priority_example :
    AreInTurn (prioritized_pending (perform_all [] (Op.enqueues waiting plan ∷ calls)))
    × Perm (prioritized_pending (perform_all [] (Op.enqueues waiting plan ∷ calls))) (
        keep
          (λ (i : ApprovalQueueItem). is_pending i.status)
          (Dict.values (perform_all [] (Op.enqueues waiting plan ∷ calls))))
pending_by_priority_example = pending_by_priority (Op.enqueues waiting plan ∷ calls)
