-- ===== src/Bridge/Approved.antt =====
-- `GovernedExecutionResult` and `ApprovalExecutionBridge`. The bridge's own state is its gateway.
use yoma.Prelude.{
  String, Bool, true, not, List, [], ◌∷◌, Option, none, some, ◌==◌, is_empty, last?, if◌then◌else◌,
}
use yoma.Result.{Result, ok, err, value_error, permission_error, raise_if, raise_unless}
use yoma.Exec.{Exec, return, lift, ◌>>=◌, ◌>>◌}
use yoma.Value.{Mapping, DateTime}
use yoma.Plan.{ActionPlan, ActionPlanStep}
use yoma.Approval.Model.{ActionApprovalWorkflow, ApprovalRecord, is_approved}
use yoma.Gateway.Model.{ExecutionResult, Gateway}
use yoma.Gateway.Execute.{Request}
use yoma.Gateway.Execute as Gate

pub record GovernedExecutionResult : Type 0 where
  pub execution : ExecutionResult
  pub workflow_id : String
  pub approval_id : String
  pub approved : Bool
  pub requires_human_approval : Bool

unfoldable pub governed_post_init :
    {S : Type 0} → GovernedExecutionResult → Exec S GovernedExecutionResult
governed_post_init r = do
  lift (raise_if (is_empty r.workflow_id) (value_error "workflow_id is required"))
  lift (raise_if (is_empty r.approval_id) (value_error "approval_id is required"))
  lift (raise_unless r.approved (value_error "governed execution result requires approval"))
  lift (raise_unless r.requires_human_approval (value_error "human approval must remain required"))
  return r

-- `_approval_details`: the id of the last record of an approved workflow.
abbrev pub last_approval : Option ApprovalRecord → Result String
last_approval none = err (value_error "approved workflow has no approval history")
last_approval (some r) =
    if is_empty r.approval_id
    then err (value_error "approval history record has no approval_id")
    else ok r.approval_id

abbrev pub approval_details : ActionApprovalWorkflow → Result String
approval_details w =
    if not (is_approved w.status)
    then err (permission_error "execution requires an approved workflow")
    else last_approval (last? w.approval_history)

-- `_action_details`: a step has no attribute `action_id`, so its `step_id` is taken; only the first
-- step is looked at.
abbrev pub first_details : List ActionPlanStep → Result (String × String × Mapping)
first_details [] = err (value_error "action plan contains no steps")
first_details (step ∷ steps) =
    if is_empty step.step_id
    then err (value_error "action plan step has no action identifier")
    else if is_empty step.action_type
    then err (value_error "action plan step has no action type")
    else ok (step.step_id, step.action_type, step.parameters)

abbrev pub request_of : String × String × Mapping → String → DateTime → Request
request_of details executor_name created_at = record {
  action_id = details.0;
  action_type = details.1;
  executor_name = executor_name;
  created_at = created_at;
  parameters = details.2;
}

module _ {W : Type 0} where
  unfoldable pub execute_approved :
      ActionApprovalWorkflow
      → ActionPlan
      → String
      → DateTime
      → Exec (Gateway W) GovernedExecutionResult
  unfolding governed_post_init
  execute_approved w plan executor_name created_at = do
    lift (
        raise_unless (w.plan_id == plan.plan_id) (value_error "workflow and plan IDs do not match"))
    lift (
        raise_unless (w.decision_id == plan.decision_id)
          (value_error "workflow and plan decision IDs do not match"))
    approval_id ← lift (approval_details w)
    details ← lift (first_details plan.steps)
    execution ← Gate.execute_approved (request_of details executor_name created_at)
    governed_post_init (record {
      execution = execution;
      workflow_id = w.workflow_id;
      approval_id = approval_id;
      approved = true;
      requires_human_approval = true;
    })

  -- The method `execute`.
  unfoldable pub execute :
      ActionApprovalWorkflow
      → ActionPlan
      → String
      → DateTime
      → Exec (Gateway W) GovernedExecutionResult
  execute = execute_approved
