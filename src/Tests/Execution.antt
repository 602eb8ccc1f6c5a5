-- ===== src/Tests/Execution.antt =====
-- Examples for the gateway, the bridge and the enforcer.
use yoma.Prelude.{◌≡◌, ◌⊎◌, refl, true, false, [], ◌∷◌, some, any, decimal}
use yoma.Result.{Error, ok, err}
use yoma.Dict
use yoma.Sorted.{sort_by, insert_by}
use yoma.Approval.Engine.{create, decide, approve, reject, modify}
use yoma.Approval.Model.{ActionApprovalWorkflow, IsWorkflow, workflow_post_init, record_post_init}
use yoma.Approval.Lifecycle.{Decision, apply, settle}
use yoma.Approval.History.{decide_all}
use yoma.Policy.Check.{
  PolicyCheckResult, evaluate, matches, check_of, tally, judge, check_post_init,
}
use yoma.Policy.Verdict.{violates}
use yoma.Gateway.Model.{Outcome, result_post_init}
use yoma.Gateway.Execute as Gate
use yoma.Gateway.Execute.{rejection_id, rejection_record, rejection_result}
use yoma.Gateway.Records.{
  Refused, Ran, execute_approved_cases, execute_approved_runs, final_result, ran,
}
use yoma.Gateway.Once.{
  Op, perform_all, executed_once, IsSettled, perform_all-IsSettled, new, rejection_overwrites,
}
use yoma.Bridge.Enforcer as Enforcer
use yoma.Bridge.Enforcer.{ExecutionPolicyResult, executed_result, policy_post_init}
use yoma.Bridge.Approved as Approved
use yoma.Bridge.Approved.{GovernedExecutionResult, governed_post_init, request_of}
use yoma.Bridge.Governed.{bridge_cases, Governed, governed_result, details_of}
use yoma.Bridge.Enforced.{execute_cases, Enforced}
use yoma.Bridge.Provenance.{ApprovedFirst, executed_was_approved}
use yoma.Tests.Samples.{
  noon, plan, step, plan-IsPlan, workflow, decisions, no_delete, gateway, count_call, request,
  request-IsRequest,
}

ran_a : Ran gateway (request "A")
unfolding Dict.get
ran_a = record {
  executor = count_call;
  request = request-IsRequest;
  registered = refl;
  fresh = refl;
  run = execute_approved_runs gateway (request "A") count_call request-IsRequest refl refl;
}

execute_approved_cases_example : Refused gateway (request "A") ⊎ Ran gateway (request "A")
execute_approved_cases_example = execute_approved_cases gateway (request "A")

executed_once_example :
    Refused
      (perform_all
        (Gate.execute_approved (request "A") gateway).1
        (Op.unregister "ops" ∷ Op.submit (request "B") true ∷ []))
      (request "A")
executed_once_example =
    executed_once gateway (request "A") (request "A")
      (Op.unregister "ops" ∷ Op.submit (request "B") true ∷ []) ran_a refl

perform_all-IsSettled_example :
    IsSettled
      (perform_all (new 0) (Op.register "ops" count_call ∷ Op.submit (request "A") true ∷ []))
perform_all-IsSettled_example =
    perform_all-IsSettled 0 (Op.register "ops" count_call ∷ Op.submit (request "A") true ∷ [])

ran_rejected : Ran gateway (request "A-REJECTED")
unfolding Dict.get
ran_rejected = record {
  executor = count_call;
  request = record { has_id = refl; has_type = refl };
  registered = refl;
  fresh = refl;
  run =
      execute_approved_runs gateway (request "A-REJECTED") count_call
        (record { has_id = refl; has_type = refl }) refl refl;
}

rejection_overwrites_example :
    Dict.get
      (Gate.execute
        (request "A")
        false
        (Gate.execute_approved (request "A-REJECTED") gateway).1).1.records
      "EXEC-A-REJECTED"
    ≡ some (rejection_record (request "A"))
rejection_overwrites_example =
    rejection_overwrites gateway (request "A-REJECTED") (request "A") ran_rejected request-IsRequest
      refl

-- The workflow of the plan after the decisions.
abbrev decided : ActionApprovalWorkflow
decided = settle workflow (Decision.approval "ann" noon "ok")

decided-IsWorkflow : IsWorkflow decided
decided-IsWorkflow = record { workflow_id = refl; plan_id = refl; decision_id = refl; human = refl }

abbrev check : PolicyCheckResult
check = check_of plan no_delete (record { passed = "POL-1" ∷ []; failed = []; reasons = [] })

abbrev governed : GovernedExecutionResult
governed = record {
  execution =
      final_result (request_of (details_of (step "STEP-1" 1 "restart")) "ops" noon)
        (Outcome.returned []);
  workflow_id = "AWF-APLAN-1";
  approval_id = "APP-AWF-APLAN-1-1";
  approved = true;
  requires_human_approval = true;
}

returned_lem :
    (Enforcer.execute no_delete (decide_all workflow decisions) plan "ops" noon gateway).0
    ≡ ok (executed_result check governed)
unfolding Enforcer.execute Enforcer.forward decide_all apply evaluate matches tally judge
    check_post_init executed_result Approved.execute_approved Gate.execute Gate.execute_approved
    Gate.run_approved Gate.conclude Dict.get Dict.put result_post_init policy_post_init
    governed_post_init sort_by insert_by approve reject modify decide record_post_init
    workflow_post_init decimal
returned_lem = refl

created_lem : create plan ≡ ok workflow
unfolding create workflow_post_init
created_lem = refl

executed_was_approved_example : (any (violates plan) no_delete ≡ false) × ApprovedFirst decisions
unfolding executed_result
executed_was_approved_example =
    executed_was_approved no_delete gateway plan workflow decisions "ops" noon
      (executed_result check governed) plan-IsPlan created_lem returned_lem refl

execute_cases_example :
    ((r : ExecutionPolicyResult) × (Enforcer.execute no_delete decided plan "ops" noon gateway
        ≡ (ok r, gateway))
      × (any (violates plan) no_delete ≡ true)
      × (r.executed ≡ false))
    ⊎ ((e : Error) × (Enforcer.execute no_delete decided plan "ops" noon gateway
          ≡ (err e, gateway)))
    ⊎ Enforced no_delete gateway decided plan "ops" noon
execute_cases_example =
    execute_cases no_delete gateway decided plan "ops" noon plan-IsPlan decided-IsWorkflow

bridge_cases_example :
    ((e : Error) × (Approved.execute_approved decided plan "ops" noon gateway ≡ (err e, gateway)))
    ⊎ ((h : Governed gateway decided plan "ops" noon) × (Approved.execute_approved decided plan
            "ops" noon gateway
          ≡ (
            ok (record {
              execution = governed_result gateway decided plan "ops" noon h;
              workflow_id = "AWF-APLAN-1";
              approval_id = h.approval.approval_id;
              approved = true;
              requires_human_approval = true;
            }),
            (ran gateway (request_of (details_of h.step) "ops" noon) h.gateway.executor).1,
          )))
bridge_cases_example = bridge_cases gateway decided plan "ops" noon decided-IsWorkflow
