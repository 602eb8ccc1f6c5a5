-- ===== src/Bridge/Enforced.antt =====
-- The outcomes of the enforcer: policy first, then the bridge.
use yoma.Prelude.{
  String, ◌≡◌, ◌⊎◌, inl, inr, refl, true, false, List, none, some, any, if◌then◌else◌, Bool-cases,
  ap, ◌∙◌,
}
use yoma.Result.{Error, ok, err}
use yoma.Value.{DateTime}
use yoma.Plan.{ActionPlan, IsPlan}
use yoma.Approval.Model.{ActionApprovalWorkflow, IsWorkflow}
use yoma.Policy.Check.{PolicyConstraint, PolicyStatus}
use yoma.Policy.Verdict.{violates, evaluate-IsReport}
use yoma.Gateway.Model.{Gateway}
use yoma.Gateway.Records.{ran}
use yoma.Bridge.Approved.{request_of}
use yoma.Bridge.Enforcer.{ExecutionPolicyResult, blocked_result, executed_result, forward, execute}
use yoma.Bridge.Governed.{Governed, governed_result, details_of, bridge_cases}

module _ {W : Type 0} (cs : List PolicyConstraint) where
  -- A request that is executed: no constraint forbids its plan, its workflow shows an approval of
  -- it, and the gateway is left as the one run for the plan's first step leaves it.
  pub record Enforced (g : Gateway W) (w : ActionApprovalWorkflow) (plan : ActionPlan)
      (name : String) (at : DateTime) : Type 0 where
    pub lawful : any (violates plan) cs ≡ false
    pub governed : Governed g w plan name at
    pub result : ExecutionPolicyResult
    pub executed : result.executed ≡ true
    pub execution : result.execution ≡ some (governed_result g w plan name at governed)
    pub outcome : execute cs w plan name at g ≡ (
      ok result,
      (ran g (request_of (details_of governed.step) name at) governed.gateway.executor).1,
    )

  pub blocked_untouched :
      (g : Gateway W) (w : ActionApprovalWorkflow) (plan : ActionPlan) (name : String)
      (at : DateTime)
      → IsPlan plan
      → any (violates plan) cs ≡ true
      → (r : ExecutionPolicyResult) × (execute cs w plan name at g ≡ (ok r, g))
        × (r.blocked ≡ true)
        × (r.executed ≡ false)
        × (r.execution ≡ none)
  unfolding execute
  blocked_untouched g w plan name at p bad =
      let (check, done, report) = evaluate-IsReport cs plan p in
      let status : check.status ≡ PolicyStatus.blocked =
        report.verdict ∙ ap (λ b. if b then PolicyStatus.blocked else PolicyStatus.allowed) bad in
      (blocked_result check, rw (done, status), refl, refl, refl)

  -- Every request with a well-formed plan and workflow has one of three outcomes: it is blocked
  -- by a policy and the gateway and the world stay, it is refused and they stay, or it is executed
  -- under no forbidding constraint and with the approval of its own plan.
  pub execute_cases :
      (g : Gateway W) (w : ActionApprovalWorkflow) (plan : ActionPlan) (name : String)
      (at : DateTime)
      → IsPlan plan
      → IsWorkflow w
      → ((r : ExecutionPolicyResult) × (execute cs w plan name at g ≡ (ok r, g))
          × (any (violates plan) cs ≡ true)
          × (r.executed ≡ false))
        ⊎ ((e : Error) × (execute cs w plan name at g ≡ (err e, g)))
        ⊎ Enforced g w plan name at
  unfolding execute forward
  execute_cases g w plan name at p v = elim (Bool-cases (any (violates plan) cs)) [
    | inl bad ↦
        let (r, same, b, n, x) = blocked_untouched g w plan name at p bad in inl (r, same, bad, n)
    | inr lawful ↦
        let (check, done, report) = evaluate-IsReport cs plan p in
        let status : check.status ≡ PolicyStatus.allowed =
          report.verdict
          ∙ ap (λ b. if b then PolicyStatus.blocked else PolicyStatus.allowed) lawful in
        elim (bridge_cases g w plan name at v) [
          | inl (e, refused) ↦ inr (inl (e, rw (done, status, refused)))
          | inr (h, run) ↦ inr (
              inr (record {
                lawful = lawful;
                governed = h;
                result = executed_result check (record {
                  execution = governed_result g w plan name at h;
                  workflow_id = w.workflow_id;
                  approval_id = h.approval.approval_id;
                  approved = true;
                  requires_human_approval = true;
                });
                executed = refl;
                execution = refl;
                outcome = rw (done, status, run);
              }))
        ]
  ]
