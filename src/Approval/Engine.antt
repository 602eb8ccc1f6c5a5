-- ===== src/Approval/Engine.antt =====
-- `ActionApprovalEngine`: one decision on each workflow.
use yoma.Prelude.{String, [], ◌∷◌, ◌++◌, ◌+◌, is_nil, is_empty, concat, decimal, length, true}
use yoma.Result.{Result, value_error, raise_if, raise_unless, ◌>>=◌, ◌>>◌}
use yoma.Value.{Mapping, DateTime}
use yoma.Plan.{ActionPlan}
use yoma.Approval.Model.{
  Status, pending, approved, rejected, modified, is_pending, ApprovalRecord, ActionApprovalWorkflow,
  record_post_init, workflow_post_init,
}

unfoldable pub create : ActionPlan → Result ActionApprovalWorkflow
unfolding workflow_post_init
create plan = workflow_post_init (record {
  workflow_id = concat "AWF-" plan.plan_id;
  plan_id = plan.plan_id;
  decision_id = plan.decision_id;
  status = pending;
  approval_history = [];
  requires_human_approval = true;
  metadata = [];
})

-- `f"APP-{workflow.workflow_id}-{len(workflow.approval_history) + 1}"`
abbrev pub approval_id_of : ActionApprovalWorkflow → String
approval_id_of w =
    concat "APP-" (concat w.workflow_id (concat "-" (decimal (length w.approval_history + 1))))

abbrev pub record_of :
    ActionApprovalWorkflow → String → DateTime → Status → String → Mapping → ApprovalRecord
record_of w reviewer_id decided_at status comment modifications = record {
  approval_id = approval_id_of w;
  plan_id = w.plan_id;
  decision_id = w.decision_id;
  status = status;
  decided_at = decided_at;
  reviewer_id = reviewer_id;
  comment = comment;
  modifications = modifications;
}

unfoldable pub decide :
    ActionApprovalWorkflow
    → String
    → DateTime
    → Status
    → String
    → Mapping
    → Result ActionApprovalWorkflow
unfolding record_post_init workflow_post_init
decide w reviewer_id decided_at status comment modifications = do
  raise_if (is_empty reviewer_id) (value_error "reviewer_id must not be empty")
  raise_unless (is_pending w.status)
      (value_error "only pending workflows can receive a new decision")
  entry ← record_post_init (record_of w reviewer_id decided_at status comment modifications)
  workflow_post_init (record {
    workflow_id = w.workflow_id;
    plan_id = w.plan_id;
    decision_id = w.decision_id;
    status = status;
    approval_history = w.approval_history ++ entry ∷ [];
    requires_human_approval = true;
    metadata = w.metadata;
  })

unfoldable pub approve :
    ActionApprovalWorkflow → String → DateTime → String → Result ActionApprovalWorkflow
unfolding decide
approve w reviewer_id decided_at comment = decide w reviewer_id decided_at approved comment []

unfoldable pub reject :
    ActionApprovalWorkflow → String → DateTime → String → Result ActionApprovalWorkflow
unfolding decide
reject w reviewer_id decided_at comment = decide w reviewer_id decided_at rejected comment []

unfoldable pub modify :
    ActionApprovalWorkflow → String → DateTime → Mapping → String → Result ActionApprovalWorkflow
unfolding decide
modify w reviewer_id decided_at modifications comment = do
  raise_if (is_nil modifications) (value_error "modifications must not be empty")
  decide w reviewer_id decided_at modified comment modifications
