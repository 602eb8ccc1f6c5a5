-- ===== src/ApprovalQueue/Calls.antt =====
-- The calls of the queue, and what each can write.
use yoma.Prelude.{
  String, ◌≡◌, refl, true, not, List, [], ◌∷◌, none, ◌==◌, ◌⊎◌, inl, inr, sym, Bool-cases,
  Option-cases, if◌then◌else◌, is_empty,
}
use yoma.Result.{Result, ok, Result-cases}
use yoma.Dict
use yoma.Plan.{ActionPlan}
use yoma.Approval.Model.{Status, ActionApprovalWorkflow}
use yoma.Approval.Engine as Approval
use yoma.Approval.Lifecycle.{Decision, approval, rejection, modification, apply, settle}
use yoma.Approval.History.{IsWorkflow-settle}
use yoma.Schedule.Model.{ExecutionSchedule}
use yoma.ApprovalQueue.Model.{
  ApprovalQueueItem, item_post_init, IsItem, same_status, same_status_refl,
}
use yoma.ApprovalQueue.Queue.{
  Queue, queue_item_id, item_of, enter, enqueue, enqueue_new, decide_with, approve, reject,
  modify_item, replaced, get,
}

pub data Op : Type 0 where
  enqueues : ExecutionSchedule → ActionPlan → Op
  decides : String → Decision → Op

unfoldable pub decide : String → Decision → Queue → Queue
decide id (approval who at comment) q = (approve id who at comment q).1
decide id (rejection who at comment) q = (reject id who at comment q).1
decide id (modification who at changes comment) q = (modify_item id who at changes comment q).1

-- The queue that a call leaves, whether it returns or raises.
unfoldable pub perform : Queue → Op → Queue
unfolding decide
perform q (enqueues s plan) = (enqueue s plan q).1
perform q (decides id d) = decide id d q

unfoldable pub perform_all : Queue → List Op → Queue
unfolding perform
perform_all q [] = q
perform_all q (op ∷ ops) = perform_all (perform q op) ops

-- The decisions that the calls aim at an id.
abbrev pub decisions_for : String → List Op → List Decision
decisions_for id [] = []
decisions_for id (enqueues s plan ∷ ops) = decisions_for id ops
decisions_for id (decides k d ∷ ops) =
    let rest = decisions_for id ops in if k == id then d ∷ rest else rest

pub decide-with :
    (id : String) (d : Decision) (q : Queue) → decide id d q ≡ (decide_with id (apply d) q).1
unfolding decide approve reject modify_item apply
decide-with id (approval who at comment) q = refl
decide-with id (rejection who at comment) q = refl
decide-with id (modification who at changes comment) q = refl

-- An item whose workflow is decided once more goes through its constructor.
pub replaced-IsItem :
    (i : ApprovalQueueItem) (d : Decision) → IsItem i → IsItem (replaced i (settle i.workflow d))
replaced-IsItem i d h = record {
  queue_item_id = h.queue_item_id;
  schedule_id = h.schedule_id;
  execution_plan_id = h.execution_plan_id;
  plan_id = h.plan_id;
  decision_id = h.decision_id;
  aware = h.aware;
  same_plan = h.same_plan;
  same_decision = h.same_decision;
  same_status = same_status_refl _;
  human = refl;
  inert = refl;
  workflow = IsWorkflow-settle i.workflow d h.workflow;
}

pub post_init-IsItem : (i : ApprovalQueueItem) → IsItem i → item_post_init i ≡ ok i
unfolding item_post_init
post_init-IsItem i h = simp (
  h.queue_item_id, h.schedule_id, h.execution_plan_id, h.plan_id, h.decision_id, h.aware,
  h.same_plan, h.same_decision, h.same_status, h.human, h.inert,
)

same-status : (s t : Status) → same_status s t ≡ true → s ≡ t
same-status Status.pending Status.pending h = refl
same-status Status.approved Status.approved h = refl
same-status Status.rejected Status.rejected h = refl
same-status Status.modified Status.modified h = refl
same-status Status.pending Status.approved h = cc
same-status Status.pending Status.rejected h = cc
same-status Status.pending Status.modified h = cc
same-status Status.approved Status.pending h = cc
same-status Status.approved Status.rejected h = cc
same-status Status.approved Status.modified h = cc
same-status Status.rejected Status.pending h = cc
same-status Status.rejected Status.approved h = cc
same-status Status.rejected Status.modified h = cc
same-status Status.modified Status.pending h = cc
same-status Status.modified Status.approved h = cc
same-status Status.modified Status.rejected h = cc

-- An item is what `_replace` makes of it and its own workflow.
pub replaced_self : (i : ApprovalQueueItem) → IsItem i → replaced i i.workflow ≡ i
replaced_self i h =
    let e = same-status i.workflow.status i.status h.same_status in
    λ t. record i {
      status = e t;
      requires_human_approval = sym h.human t;
      executable = sym h.inert t;
    }

-- A call writes at most under its own id.
pub decide_with-ends :
    (k : String) (f : ActionApprovalWorkflow → Result ActionApprovalWorkflow) (q : Queue)
    → ((decide_with k f q).1 ≡ q)
      ⊎ ((j : ApprovalQueueItem) × ((decide_with k f q).1 ≡ Dict.put q k j))
unfolding decide_with enter get
decide_with-ends k f q = elim (Option-cases (Dict.get q k)) [
  | inl unknown ↦ inl (simp unknown)
  | inr (i, stands) ↦ elim (Result-cases (f i.workflow)) [
    | inl (e, stops) ↦ inl (simp (stands, stops))
    | inr (w, decided) ↦ elim (Result-cases (item_post_init (replaced i w))) [
      | inl (e, stops) ↦ inl (simp (stands, decided, stops))
      | inr (j, accepted) ↦ inr (j, simp (stands, decided, accepted))
    ]
  ]
]

pub enqueue-ends :
    (s : ExecutionSchedule) (plan : ActionPlan) (q : Queue)
    → ((enqueue s plan q).1 ≡ q)
      ⊎ ((Dict.get q (queue_item_id s) ≡ none)
          × (j : ApprovalQueueItem) × ((enqueue s plan q).1 ≡ Dict.put q (queue_item_id s) j))
unfolding enqueue enqueue_new enter
enqueue-ends s plan q = elim (Bool-cases (not (s.decision_id == plan.decision_id))) [
  | inl foreign ↦ inl (simp foreign)
  | inr fits ↦ elim (Bool-cases (is_empty s.execution_plan_id)) [
    | inl empty ↦ inl (simp (fits, empty))
    | inr named ↦ elim (Option-cases (Dict.get q (queue_item_id s))) [
      | inr (i, stands) ↦ inl (simp (fits, named, stands))
      | inl new ↦ elim (Result-cases (Approval.create plan)) [
        | inl (e, stops) ↦ inl (simp (fits, named, new, stops))
        | inr (w, created) ↦ elim (Result-cases (item_post_init (item_of s plan w))) [
          | inl (e, stops) ↦ inl (simp (fits, named, new, created, stops))
          | inr (j, accepted) ↦ inr (new, j, simp (fits, named, new, created, accepted))
        ]
      ]
    ]
  ]
]
