-- ===== src/Tests/Governance.antt =====
-- Examples for workflows and policies.
use yoma.Prelude.{◌≡◌, refl}
use yoma.Result.{ok}
use yoma.Approval.Model.{ActionApprovalWorkflow}
use yoma.Approval.Engine.{create}
use yoma.Approval.Lifecycle.{Decision, apply, settle, apply-eq-verdict}
use yoma.Approval.History.{decide_all, first_sound_wins}
use yoma.Approval.Accounts.{IsAccounted, created-IsAccounted}
use yoma.Policy.Check.{PolicyCheckResult, evaluate}
use yoma.Policy.Verdict.{IsReport, evaluate-IsReport}
use yoma.Tests.Samples.{
  noon, plan, plan-IsPlan, workflow, workflow-IsWorkflow, decisions, no_delete,
}

abbrev ann : Decision
ann = Decision.approval "ann" noon "ok"

abbrev bob : Decision
bob = Decision.rejection "bob" noon "no"

apply-eq-verdict_example : apply ann workflow ≡ ok (settle workflow ann)
apply-eq-verdict_example = apply-eq-verdict workflow ann workflow-IsWorkflow

first_sound_wins_example : decide_all workflow decisions ≡ settle workflow ann
first_sound_wins_example = first_sound_wins workflow decisions workflow-IsWorkflow refl

created-IsAccounted_example :
    (w : ActionApprovalWorkflow) × (create plan ≡ ok w) × IsAccounted plan (decide_all w decisions)
created-IsAccounted_example = created-IsAccounted plan decisions plan-IsPlan

evaluate-IsReport_example :
    (r : PolicyCheckResult) × (evaluate no_delete plan ≡ ok r) × IsReport plan no_delete r
evaluate-IsReport_example = evaluate-IsReport no_delete plan plan-IsPlan
