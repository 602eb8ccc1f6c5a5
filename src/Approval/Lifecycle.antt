-- ===== src/Approval/Lifecycle.antt =====
-- What one decision does to a workflow.
use yoma.Prelude.{
  ◌+◌, String, ◌≡◌, true, [], ◌∷◌, ◌++◌, Option, none, some, is_nil, is_empty, concat, length,
  arith, if◌then◌else◌, starts_with, starts_with-append, decimal,
}
use yoma.Result.{Result, ok, err, value_error}
use yoma.Value.{Mapping, DateTime}
use yoma.Approval.Model.{
  approved, rejected, modified, is_pending, ApprovalRecord, ActionApprovalWorkflow, IsWorkflow,
}
use yoma.Approval.Engine.{record_of, approval_id_of, approve, reject, modify}

-- A call of one of the three methods: who decides, when, and with which words.
pub data Decision : Type 0 where
  approval rejection : String → DateTime → String → Decision
  modification : String → DateTime → Mapping → String → Decision

unfoldable pub apply : Decision → ActionApprovalWorkflow → Result ActionApprovalWorkflow
unfolding approve reject modify
apply (approval who at comment) w = approve w who at comment
apply (rejection who at comment) w = reject w who at comment
apply (modification who at changes comment) w = modify w who at changes comment

-- The record that a decision leaves.
abbrev pub entry_of : ActionApprovalWorkflow → Decision → ApprovalRecord
entry_of w (approval who at comment) = record_of w who at approved comment []
entry_of w (rejection who at comment) = record_of w who at rejected comment []
entry_of w (modification who at changes comment) = record_of w who at modified comment changes

-- The workflow with a decision entered: only the status and the history change.
abbrev pub settle : ActionApprovalWorkflow → Decision → ActionApprovalWorkflow
settle w d = record w {
  status = (entry_of w d).status;
  approval_history = w.approval_history ++ entry_of w d ∷ [];
}

-- The first complaint about the decision itself.
abbrev pub complaint : Decision → Option String
complaint (approval who at comment) =
    if is_empty who then some "reviewer_id must not be empty" else none
complaint (rejection who at comment) =
    if is_empty who then some "reviewer_id must not be empty" else none
complaint (modification who at changes comment) =
    if is_nil changes
    then some "modifications must not be empty"
    else if is_empty who
    then some "reviewer_id must not be empty"
    else none

abbrev pub verdict :
    Option String → ActionApprovalWorkflow → Decision → Result ActionApprovalWorkflow
verdict (some message) w d = err (value_error message)
verdict none w d =
    if is_pending w.status
    then ok (settle w d)
    else err (value_error "only pending workflows can receive a new decision")

approval_id-IsApp : (w : ActionApprovalWorkflow) → starts_with (approval_id_of w) "APP-" ≡ true
approval_id-IsApp w =
    starts_with-append "APP-"
      (concat w.workflow_id (concat "-" (decimal (length w.approval_history + 1))))

-- On a workflow of the constructor, a decision has exactly these outcomes: a complaint about the
-- decision, a refusal because the workflow is decided, or the settled workflow.
pub apply-eq-verdict :
    (w : ActionApprovalWorkflow) (d : Decision)
    → IsWorkflow w
    → apply d w ≡ verdict (complaint d) w d
unfolding apply
apply-eq-verdict w (approval who at comment) h = ground (arith, approval_id-IsApp w)
apply-eq-verdict w (rejection who at comment) h = ground (arith, approval_id-IsApp w)
apply-eq-verdict w (modification who at changes comment) h = ground (arith, approval_id-IsApp w)
