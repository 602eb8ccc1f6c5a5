-- ===== src/ApprovalQueue/Model.antt =====
-- `ApprovalQueueItem`, with the checks of its constructor.
use yoma.Prelude.{
  String, Bool, ◌≡◌, refl, true, false, not, ◌&&◌, ◌||◌, ◌==◌, is_empty, starts_with, arith,
}
use yoma.Result.{Result, ok, value_error, raise_if, raise_unless, ◌>>◌}
use yoma.Value.{Mapping, DateTime}
use yoma.Approval.Model.{
  Status, pending, approved, rejected, modified, is_pending, ActionApprovalWorkflow, IsWorkflow,
}

pub record ApprovalQueueItem : Type 0 where
  pub queue_item_id : String
  pub schedule_id : String
  pub execution_plan_id : String
  pub plan_id : String
  pub decision_id : String
  pub priority : String
  pub scheduled_at : DateTime
  pub created_at : DateTime
  pub workflow : ActionApprovalWorkflow
  pub status : Status
  pub requires_human_approval : Bool
  pub executable : Bool
  pub metadata : Mapping

-- `self.workflow.status == self.status`
abbrev pub same_status : Status → Status → Bool
same_status pending pending = true
same_status approved approved = true
same_status rejected rejected = true
same_status modified modified = true
same_status _ _ = false

pub same_status_refl : (s : Status) → same_status s s ≡ true
same_status_refl pending = refl
same_status_refl approved = refl
same_status_refl rejected = refl
same_status_refl modified = refl

unfoldable pub item_post_init : ApprovalQueueItem → Result ApprovalQueueItem
item_post_init i = do
  raise_unless (starts_with i.queue_item_id "AQITEM-")
      (value_error "queue_item_id must start with AQITEM-")
  raise_if (is_empty i.schedule_id) (value_error "schedule_id is required")
  raise_if (is_empty i.execution_plan_id) (value_error "execution_plan_id is required")
  raise_if (is_empty i.plan_id) (value_error "plan_id is required")
  raise_if (is_empty i.decision_id) (value_error "decision_id is required")
  raise_if (not i.scheduled_at.aware || not i.created_at.aware)
      (value_error "scheduled_at and created_at must be timezone-aware")
  raise_unless (i.workflow.plan_id == i.plan_id)
      (value_error "workflow plan_id does not match queue item")
  raise_unless (i.workflow.decision_id == i.decision_id)
      (value_error "workflow decision_id does not match queue item")
  raise_unless (same_status i.workflow.status i.status)
      (value_error "queue status must match approval workflow status")
  raise_unless i.requires_human_approval
      (value_error "approval queue always requires human approval")
  raise_if i.executable (value_error "approval queue is never executable")
  ok i

-- The property `requires_review`.
abbrev pub requires_review : ApprovalQueueItem → Bool
requires_review i = i.requires_human_approval && is_pending i.status

-- An item that went through its constructor, of a workflow that went through its own.
pub record IsItem (i : ApprovalQueueItem) : Type 0 where
  pub queue_item_id : starts_with i.queue_item_id "AQITEM-" ≡ true
  pub schedule_id : is_empty i.schedule_id ≡ false
  pub execution_plan_id : is_empty i.execution_plan_id ≡ false
  pub plan_id : is_empty i.plan_id ≡ false
  pub decision_id : is_empty i.decision_id ≡ false
  pub aware : (not i.scheduled_at.aware || not i.created_at.aware) ≡ false
  pub same_plan : (i.workflow.plan_id == i.plan_id) ≡ true
  pub same_decision : (i.workflow.decision_id == i.decision_id) ≡ true
  pub same_status : same_status i.workflow.status i.status ≡ true
  pub human : i.requires_human_approval ≡ true
  pub inert : i.executable ≡ false
  pub workflow : IsWorkflow i.workflow

pub IsItem-of_post_init :
    (i : ApprovalQueueItem) {j : ApprovalQueueItem}
    → IsWorkflow i.workflow
    → item_post_init i ≡ ok j
    → IsItem i × (j ≡ i)
unfolding item_post_init
IsItem-of_post_init i w h = ground arith
