-- ===== src/Approval/Accounts.antt =====
-- What holds of a workflow from its creation on, and whose decision approves it.
use yoma.Prelude.{
  ◌∙◌, ◌≤◌, String, ◌≡◌, ◌≢◌, ◌⊎◌, inl, inr, refl, true, false, List, [], ◌∷◌, Option, none, some,
  is_empty, concat, arith, starts_with-append, Option-cases, last?,
}
use yoma.Result.{ok}
use yoma.Value.{DateTime}
use yoma.Plan.{ActionPlan, IsPlan}
use yoma.Approval.Model.{
  Status, pending, is_pending, ApprovalRecord, ActionApprovalWorkflow, IsWorkflow, review_count,
}
use yoma.Approval.Engine.{create}
use yoma.Approval.Lifecycle.{Decision, apply, entry_of, settle, complaint}
use yoma.Approval.History.{
  after, decide_all, first_sound, settle_by, entry_decided, entry_plan, entry_reviewer,
  IsWorkflow-settle, after_decided, apply_sound, apply-complaint, first_sound_wins,
}

-- What holds of a workflow from its creation on: one decision at most, recorded as it was taken.
pub record IsAccounted (plan : ActionPlan) (w : ActionApprovalWorkflow) : Type 0 where
  pub made : IsWorkflow w
  pub plan_id : w.plan_id ≡ plan.plan_id
  pub decision_id : w.decision_id ≡ plan.decision_id
  pub once : review_count w ≤ 1
  pub undecided : w.status ≡ pending → w.approval_history ≡ []
  pub decided :
      w.status ≢ pending
      → (r : ApprovalRecord) × (last? w.approval_history ≡ some r)
        × (r.status ≡ w.status)
        × (r.plan_id ≡ plan.plan_id)
        × (is_empty r.reviewer_id ≡ false)

create-IsAccounted :
    (plan : ActionPlan)
    → IsPlan plan
    → (w : ActionApprovalWorkflow) × (create plan ≡ ok w) × IsAccounted plan w
unfolding create
create-IsAccounted plan h = (
  record {
    workflow_id = concat "AWF-" plan.plan_id;
    plan_id = plan.plan_id;
    decision_id = plan.decision_id;
    status = pending;
    approval_history = [];
    requires_human_approval = true;
    metadata = [];
  },
  ground (arith, starts_with-append "AWF-" plan.plan_id),
  ground (arith, starts_with-append "AWF-" plan.plan_id),
)

settle-IsAccounted :
    (plan : ActionPlan) (w : ActionApprovalWorkflow) (d : Decision)
    → complaint d ≡ none
    → w.status ≡ pending
    → IsAccounted plan w
    → IsAccounted plan (settle w d)
settle-IsAccounted plan w d sound p a = record {
  made = IsWorkflow-settle w d a.made;
  plan_id = a.plan_id;
  decision_id = a.decision_id;
  once = rw (a.undecided p) (omega arith);
  undecided = λ q. cc (entry_decided w d);
  decided = λ q. (
    entry_of w d,
    rw (a.undecided p) refl,
    refl,
    entry_plan w d ∙ a.plan_id,
    entry_reviewer w d sound,
  );
}

pending_cases : (s : Status) → (s ≡ pending) ⊎ (is_pending s ≡ false)
pending_cases s = ground arith

apply-IsAccounted :
    (plan : ActionPlan) (w : ActionApprovalWorkflow) (d : Decision)
    → IsAccounted plan w
    → IsAccounted plan (after w (apply d w))
apply-IsAccounted plan w d a = elim (Option-cases (complaint d)) [
  | inl sound ↦ elim (pending_cases w.status) [
    | inl p ↦ rw (apply_sound w d a.made p sound) (settle-IsAccounted plan w d sound p a)
    | inr decided ↦ rw (after_decided w d a.made decided) a
  ]
  | inr (message, e) ↦ rw (apply-complaint w d a.made e) a
]

decide_all-IsAccounted :
    (plan : ActionPlan) (w : ActionApprovalWorkflow) (ds : List Decision)
    → IsAccounted plan w
    → IsAccounted plan (decide_all w ds)
unfolding decide_all
decide_all-IsAccounted plan w [] a = a
decide_all-IsAccounted plan w (d ∷ ds) a =
    decide_all-IsAccounted plan (after w (apply d w)) ds (apply-IsAccounted plan w d a)

-- A well-formed plan always gets a workflow, and whatever decisions follow, the workflow keeps the
-- plan's identity, holds at most one record, holds none while it is pending, and once decided holds
-- as its last record one with the workflow's status, the plan's id and a reviewer.
pub created-IsAccounted :
    (plan : ActionPlan) (ds : List Decision)
    → IsPlan plan
    → (w : ActionApprovalWorkflow) × (create plan ≡ ok w) × IsAccounted plan (decide_all w ds)
created-IsAccounted plan ds h =
    let (w, made, a) = create-IsAccounted plan h in (w, made, decide_all-IsAccounted plan w ds a)

-- A new workflow is pending, and went through its constructor.
pub create_pending :
    (plan : ActionPlan) (w : ActionApprovalWorkflow)
    → create plan ≡ ok w
    → IsWorkflow w × (w.status ≡ pending)
unfolding create
create_pending plan w h = ground arith

-- The decision that `first_sound` finds has no complaint.
pub first_sound_no_complaint :
    (ds : List Decision) (d : Decision) → first_sound ds ≡ some d → complaint d ≡ none
first_sound_no_complaint [] d h = cc
first_sound_no_complaint (x ∷ ds) d h = elim (Option-cases (complaint x)) [
  | inl sound ↦ ground (arith, sound)
  | inr (message, e) ↦ first_sound_no_complaint ds d (ground (arith, e))
]

-- Which workflows of a plan's history are approved.
pub approved_by_first :
    (w : ActionApprovalWorkflow) (ds : List Decision)
    → IsWorkflow w
    → w.status ≡ pending
    → (decide_all w ds).status ≡ Status.approved
    → (who : String) × (at : DateTime) × (comment : String) × (first_sound ds
        ≡ some (Decision.approval who at comment))
      × (is_empty who ≡ false)
approved_by_first w ds h p a = found (first_sound ds) refl (rw (first_sound_wins w ds h p) at a)
  where
    found :
        (o : Option Decision)
        → first_sound ds ≡ o
        → (settle_by w o).status ≡ Status.approved
        → (who : String) × (at : DateTime) × (comment : String) × (first_sound ds
            ≡ some (Decision.approval who at comment))
          × (is_empty who ≡ false)
    found none e s = cc
    found (some (Decision.approval who at comment)) e s = (
      who,
      at,
      comment,
      e,
      ground (arith, first_sound_no_complaint ds (Decision.approval who at comment) e),
    )
    found (some (Decision.rejection who at comment)) e s = cc
    found (some (Decision.modification who at changes comment)) e s = cc
