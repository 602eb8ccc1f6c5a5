-- ===== src/Approval/Model.antt =====
-- `ApprovalRecord` and `ActionApprovalWorkflow`, with the checks of their constructors. The status
-- is a type of four values, so the source's test `status not in VALID_STATUSES` never fires.
use yoma.Prelude.{
  ℕ, String, Bool, ◌≡◌, true, false, List, is_nil, is_empty, starts_with, length, ◌&&◌,
}
use yoma.Result.{Result, ok, value_error, raise_if, raise_unless, ◌>>◌}
use yoma.Value.{Mapping, DateTime}

pub data Status : Type 0 where
  pending approved rejected modified : Status

abbrev pub is_pending : Status → Bool
is_pending pending = true
is_pending _ = false

abbrev pub is_approved : Status → Bool
is_approved approved = true
is_approved _ = false

abbrev pub is_modified : Status → Bool
is_modified modified = true
is_modified _ = false

pub record ApprovalRecord : Type 0 where
  pub approval_id : String
  pub plan_id : String
  pub decision_id : String
  pub status : Status
  pub decided_at : DateTime
  pub reviewer_id : String
  pub comment : String
  pub modifications : Mapping

pub record ActionApprovalWorkflow : Type 0 where
  pub workflow_id : String
  pub plan_id : String
  pub decision_id : String
  pub status : Status
  pub approval_history : List ApprovalRecord
  pub requires_human_approval : Bool
  pub metadata : Mapping

unfoldable pub record_post_init : ApprovalRecord → Result ApprovalRecord
record_post_init r = do
  raise_unless (starts_with r.approval_id "APP-") (value_error "approval_id must start with APP-")
  raise_unless (starts_with r.plan_id "APLAN-") (value_error "plan_id must start with APLAN-")
  raise_unless (starts_with r.decision_id "DINT-") (value_error "decision_id must start with DINT-")
  raise_if (is_empty r.reviewer_id) (value_error "reviewer_id must not be empty")
  raise_if (is_modified r.status && is_nil r.modifications)
      (value_error "modified approvals must contain modifications")
  ok r

unfoldable pub workflow_post_init : ActionApprovalWorkflow → Result ActionApprovalWorkflow
workflow_post_init w = do
  raise_unless (starts_with w.workflow_id "AWF-") (value_error "workflow_id must start with AWF-")
  raise_unless (starts_with w.plan_id "APLAN-") (value_error "plan_id must start with APLAN-")
  raise_unless (starts_with w.decision_id "DINT-") (value_error "decision_id must start with DINT-")
  raise_unless w.requires_human_approval (value_error "approval workflow requires human approval")
  ok w

-- The property `review_count`.
abbrev pub review_count : ActionApprovalWorkflow → ℕ
review_count w = length w.approval_history

-- The property `executable`.
abbrev pub executable : ActionApprovalWorkflow → Bool
executable w = false

-- A workflow that went through its constructor.
pub record IsWorkflow (w : ActionApprovalWorkflow) : Type 0 where
  pub workflow_id : starts_with w.workflow_id "AWF-" ≡ true
  pub plan_id : starts_with w.plan_id "APLAN-" ≡ true
  pub decision_id : starts_with w.decision_id "DINT-" ≡ true
  pub human : w.requires_human_approval ≡ true
