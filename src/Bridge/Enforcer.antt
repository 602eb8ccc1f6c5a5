-- ===== src/Bridge/Enforcer.antt =====
-- `ExecutionPolicyResult` and `ExecutionPolicyEnforcer`.
use yoma.Prelude.{
  String, Bool, true, false, not, List, [], ◌∷◌, Option, none, some, ◌&&◌, is_nil, is_some, concat,
  length, if◌then◌else◌,
}
use yoma.Result.{value_error, raise_if, raise_unless}
use yoma.Exec.{Exec, return, lift, ◌>>=◌, ◌>>◌}
use yoma.Value.{Value, Mapping, DateTime}
use yoma.Plan.{ActionPlan}
use yoma.Approval.Model.{ActionApprovalWorkflow}
use yoma.Policy.Check.{PolicyConstraint, PolicyStatus, is_blocked, PolicyCheckResult, evaluate}
use yoma.Gateway.Model.{ExecutionResult, Gateway}
use yoma.Bridge.Approved.{GovernedExecutionResult, execute_approved}

pub record ExecutionPolicyResult : Type 0 where
  pub policy_check : PolicyCheckResult
  pub execution : Option ExecutionResult
  pub executed : Bool
  pub blocked : Bool
  pub requires_human_approval : Bool
  pub reason : String
  pub metadata : Mapping

unfoldable pub policy_post_init :
    {S : Type 0} → ExecutionPolicyResult → Exec S ExecutionPolicyResult
policy_post_init r = do
  lift (
      raise_unless r.requires_human_approval
        (value_error "execution policy results must require human approval"))
  lift (
      raise_if (r.blocked && r.executed)
        (value_error "blocked execution cannot be marked executed"))
  lift (
      raise_if (is_blocked r.policy_check.status && not r.blocked)
        (value_error "blocked policy check must produce blocked result"))
  lift (
      raise_if (r.executed && not (is_some r.execution))
        (value_error "executed result requires an execution result"))
  return r

-- `"; ".join(reasons)`
pub join_reasons : List String → String
join_reasons [] = ""
join_reasons (r ∷ []) = r
join_reasons (r ∷ s ∷ rs) = concat r (concat "; " (join_reasons (s ∷ rs)))

abbrev pub status_text : PolicyStatus → String
status_text PolicyStatus.allowed = "allowed"
status_text PolicyStatus.restricted = "restricted"
status_text PolicyStatus.blocked = "blocked"

-- The result for a blocked plan.
unfoldable pub blocked_result : PolicyCheckResult → ExecutionPolicyResult
unfolding join_reasons
blocked_result check = record {
  policy_check = check;
  execution = none;
  executed = false;
  blocked = true;
  requires_human_approval = true;
  reason =
      if is_nil check.reasons then "execution blocked by policy" else join_reasons check.reasons;
  metadata =
      ("policy_status", Value.text (status_text check.status))
      ∷ ("failed_constraint_count", Value.number (length check.failed_constraint_ids))
      ∷ [];
}

unfoldable pub executed_result : PolicyCheckResult → GovernedExecutionResult → ExecutionPolicyResult
executed_result check governed = record {
  policy_check = check;
  execution = some governed.execution;
  executed = true;
  blocked = false;
  requires_human_approval = true;
  reason = "execution allowed by policy";
  metadata =
      ("policy_status", Value.text (status_text check.status))
      ∷ ("passed_constraint_count", Value.number (length check.passed_constraint_ids))
      ∷ ("workflow_id", Value.text governed.workflow_id)
      ∷ ("approval_id", Value.text governed.approval_id)
      ∷ [];
}

module _ {W : Type 0} (constraints : List PolicyConstraint) where
  -- The part of `execute` behind the test for a blocked plan.
  unfoldable pub forward :
      PolicyCheckResult
      → ActionApprovalWorkflow
      → ActionPlan
      → String
      → DateTime
      → Exec (Gateway W) ExecutionPolicyResult
  unfolding executed_result policy_post_init
  forward check w plan executor_name created_at = do
    governed ← execute_approved w plan executor_name created_at
    policy_post_init (executed_result check governed)

  unfoldable pub execute :
      ActionApprovalWorkflow
      → ActionPlan
      → String
      → DateTime
      → Exec (Gateway W) ExecutionPolicyResult
  unfolding blocked_result policy_post_init
  execute w plan executor_name created_at = do
    check ← lift (evaluate constraints plan)
    if is_blocked check.status
        then policy_post_init (blocked_result check)
        else forward check w plan executor_name created_at
