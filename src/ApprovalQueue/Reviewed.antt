-- ===== src/ApprovalQueue/Reviewed.antt =====
-- From the entry of a schedule to its decision, and the order in which items are offered.
use mathlib.Core.List.{Perm}
use yoma.Prelude.{
  String, ◌≡◌, refl, true, false, not, List, [], ◌∷◌, none, some, ◌==◌, ◌||◌, inl, inr, is_empty,
  starts_with, starts_with-append, arith, ap, sym, ◌∙◌, Bool-cases, eq_iff, eq_refl, is_unique,
  keep,
}
use yoma.Result.{ok}
use yoma.Dict
use yoma.Plan.{ActionPlan, IsPlan}
use yoma.Approval.Model.{ActionApprovalWorkflow, IsWorkflow, is_pending}
use yoma.Approval.Engine as Approval
use yoma.Approval.History.{decide_all, first_sound, settle_by, first_sound_wins}
use yoma.Approval.Accounts.{create_pending, created-IsAccounted}
use yoma.Approval.Lifecycle.{apply}
use yoma.Schedule.Model.{ExecutionSchedule, schedule_post_init}
use yoma.ApprovalQueue.Model.{ApprovalQueueItem, IsItem, requires_review, same_status_refl}
use yoma.ApprovalQueue.Queue.{
  Queue, queue_item_id, item_of, enter, enqueue, enqueue_new, prioritized_pending, replaced,
}
use yoma.ApprovalQueue.Calls.{
  Op, enqueues, decides, perform, perform_all, decide-with, decisions_for, post_init-IsItem,
  decide_with-ends, enqueue-ends,
}
use yoma.ApprovalQueue.Refines.{queue_refines_workflows}
use yoma.ApprovalQueue.Precedes.{AreInTurn, IsSorted-AreInTurn}
use yoma.ApprovalQueue.Priority.{prioritized_pending_lem}

-- What the constructor of schedules leaves to an item.
record IsEntry (s : ExecutionSchedule) : Type 0 where
  schedule_id : starts_with s.schedule_id "SCHED-" ≡ true
  execution_plan_id : is_empty s.execution_plan_id ≡ false
  aware : (not s.scheduled_at.aware || not s.created_at.aware) ≡ false

IsEntry-of_post_init : (s : ExecutionSchedule) → schedule_post_init s ≡ ok s → IsEntry s
unfolding schedule_post_init
IsEntry-of_post_init s h = ground arith

prefix_not_empty :
    (s p : String) → starts_with "" p ≡ false → starts_with s p ≡ true → is_empty s ≡ false
prefix_not_empty s p none_such h = elim (Bool-cases (is_empty s)) [
  | inr full ↦ full
  | inl empty ↦
      absurd (differ (sym none_such ∙ ap (λ t. starts_with t p) (sym ((eq_iff s "").0 empty)) ∙ h))
]
  where
    differ : false ≡ true → ⊥
    differ e = cc

created_of :
    (plan : ActionPlan)
    → IsPlan plan
    → (w : ActionApprovalWorkflow) × (Approval.create plan ≡ ok w)
      × (w.plan_id ≡ plan.plan_id)
      × (w.decision_id ≡ plan.decision_id)
unfolding decide_all
created_of plan h =
    let (w, created, a) = created-IsAccounted plan [] h in (w, created, a.plan_id, a.decision_id)

item_of-IsItem :
    (s : ExecutionSchedule) (plan : ActionPlan) (w : ActionApprovalWorkflow)
    → IsEntry s
    → IsPlan plan
    → IsWorkflow w
    → w.plan_id ≡ plan.plan_id
    → w.decision_id ≡ plan.decision_id
    → IsItem (item_of s plan w)
item_of-IsItem s plan w e h made same_plan same_decision = record {
  queue_item_id = starts_with-append "AQITEM-" s.schedule_id;
  schedule_id = prefix_not_empty s.schedule_id "SCHED-" refl e.schedule_id;
  execution_plan_id = e.execution_plan_id;
  plan_id = prefix_not_empty plan.plan_id "APLAN-" refl h.plan_id;
  decision_id = prefix_not_empty plan.decision_id "DINT-" refl h.decision_id;
  aware = e.aware;
  same_plan = rw same_plan (eq_refl plan.plan_id);
  same_decision = rw same_decision (eq_refl plan.decision_id);
  same_status = same_status_refl w.status;
  human = refl;
  inert = refl;
  workflow = made;
}

enqueue_enters :
    (q : Queue) (s : ExecutionSchedule) (plan : ActionPlan) (w : ActionApprovalWorkflow)
    → IsEntry s
    → (s.decision_id == plan.decision_id) ≡ true
    → Dict.get q (queue_item_id s) ≡ none
    → Approval.create plan ≡ ok w
    → IsItem (item_of s plan w)
    → enqueue s plan q ≡ (ok (item_of s plan w), Dict.put q (queue_item_id s) (item_of s plan w))
unfolding enqueue enqueue_new enter
enqueue_enters q s plan w e fits new created h =
    simp (fits, e.execution_plan_id, new, created, post_init-IsItem (item_of s plan w) h)

-- A schedule and a plan that went through their constructors, with the same decision id, enter a
-- queue that has no item of the schedule: `enqueue` returns an item that waits for review, and after
-- any further calls of `enqueue`, `approve`, `reject` and `modify` the item has been settled by the
-- first decision on it that is well formed, or still waits if there was none.
pub first_decision_settles :
    (q : Queue) (s : ExecutionSchedule) (plan : ActionPlan) (ops : List Op)
    → schedule_post_init s ≡ ok s
    → IsPlan plan
    → (s.decision_id == plan.decision_id) ≡ true
    → Dict.get q (queue_item_id s) ≡ none
    → (i : ApprovalQueueItem) × ((enqueue s plan q).0 ≡ ok i)
      × (requires_review i ≡ true)
      × (Dict.get (perform_all (enqueue s plan q).1 ops) (queue_item_id s)
          ≡ some (
              replaced i
                (settle_by i.workflow (first_sound (decisions_for (queue_item_id s) ops)))))
first_decision_settles q s plan ops accepted h fits new =
    let (w, created, same_plan, same_decision) = created_of plan h in
    let (made, waits) = create_pending plan w created in
    let e = IsEntry-of_post_init s accepted in
    let i = item_of s plan w in
    let is_item = item_of-IsItem s plan w e h made same_plan same_decision in
    let entered = enqueue_enters q s plan w e fits new created is_item in
    let id = queue_item_id s in
    (
      i,
      ap (λ r. r.0) entered,
      rw waits refl,
      queue_refines_workflows id (enqueue s plan q).1 i ops is_item
            (ap (λ r. Dict.get r.1 id) entered ∙ Dict.get-put_self q id i)
          ∙ ap (λ v. some (replaced i v)) (first_sound_wins w (decisions_for id ops) made waits),
    )

-- Calls keep the keys different.
perform_unique :
    (q : Queue) (op : Op)
    → is_unique (Dict.keys q) ≡ true
    → is_unique (Dict.keys (perform q op)) ≡ true
unfolding perform
perform_unique q (enqueues s plan) h = elim (enqueue-ends s plan q) [
  | inl same ↦ ap (λ r. is_unique (Dict.keys r)) same ∙ h
  | inr (new, j, put) ↦
      ap (λ r. is_unique (Dict.keys r)) put ∙ Dict.is_unique-put q (queue_item_id s) j h
]
perform_unique q (decides id d) h =
    ap (λ r. is_unique (Dict.keys r)) (decide-with id d q)
    ∙ (elim (decide_with-ends id (apply d) q) [
      | inl same ↦ ap (λ r. is_unique (Dict.keys r)) same ∙ h
      | inr (j, put) ↦ ap (λ r. is_unique (Dict.keys r)) put ∙ Dict.is_unique-put q id j h
    ])

perform_all_unique :
    (q : Queue) (ops : List Op)
    → is_unique (Dict.keys q) ≡ true
    → is_unique (Dict.keys (perform_all q ops)) ≡ true
unfolding perform_all
perform_all_unique q [] h = h
perform_all_unique q (op ∷ ops) h = perform_all_unique (perform q op) ops (perform_unique q op h)

-- After any calls of `enqueue`, `approve`, `reject` and `modify` on an empty queue,
-- `prioritized_pending` gives exactly the pending items, each once. Of an item and the next, the first
-- is the more urgent one, in the order critical, high, normal, low, any other priority; or it is as
-- urgent and scheduled earlier; or also scheduled at the same time and created earlier; or also
-- created at the same time, and its id does not come behind the other's.
pub pending_by_priority :
    (ops : List Op)
    → AreInTurn (prioritized_pending (perform_all [] ops))
      × Perm
          (prioritized_pending (perform_all [] ops))
          (keep (λ (i : ApprovalQueueItem). is_pending i.status) (Dict.values (perform_all [] ops)))
pending_by_priority ops =
    let (sorted, same) =
      prioritized_pending_lem (perform_all [] ops) (perform_all_unique [] ops refl) in
    (IsSorted-AreInTurn (prioritized_pending (perform_all [] ops)) sorted, same)
