-- ===== src/Bridge/Provenance.antt =====
-- From the plan to its execution: whose decision an execution rests on.
use yoma.Prelude.{
  String, ◌≡◌, inl, inr, true, false, List, some, is_empty, any, arith, ap, sym, ◌∙◌, subst,
}
use yoma.Result.{Error, ok, err}
use yoma.Value.{DateTime}
use yoma.Plan.{ActionPlan, IsPlan}
use yoma.Approval.Model.{ActionApprovalWorkflow, IsWorkflow}
use yoma.Approval.Engine.{create}
use yoma.Approval.Lifecycle.{Decision}
use yoma.Approval.History.{decide_all, first_sound}
use yoma.Approval.Accounts.{created-IsAccounted, create_pending, approved_by_first}
use yoma.Policy.Check.{PolicyConstraint}
use yoma.Policy.Verdict.{violates}
use yoma.Gateway.Model.{Gateway}
use yoma.Bridge.Enforcer.{ExecutionPolicyResult, execute}
use yoma.Bridge.Enforced.{execute_cases}

ok_inj {ℓ} : {A : Type ℓ} (a b : A) → ok a ≡ ok b → a ≡ b
ok_inj a b h = cc

decided-IsWorkflow :
    (plan : ActionPlan) (w : ActionApprovalWorkflow) (ds : List Decision)
    → IsPlan plan
    → create plan ≡ ok w
    → IsWorkflow (decide_all w ds)
decided-IsWorkflow plan w ds p made =
    let (w', made', a) = created-IsAccounted plan ds p in
    subst (λ v. IsWorkflow (decide_all v ds)) (ok_inj w' w (sym made' ∙ made)) a.made

-- The first well-formed decision among `ds` is an approval by a named reviewer.
abbrev pub ApprovedFirst : List Decision → Type 0
ApprovedFirst ds =
    (who : String) × (at : DateTime) × (comment : String) × (first_sound ds
      ≡ some (Decision.approval who at comment))
    × (is_empty who ≡ false)

not_idle : (b r : ExecutionPolicyResult) → ok b ≡ ok r → b.executed ≡ false → r.executed ≡ true → ⊥
not_idle b r same idle executed = ground arith

not_refused : (e : Error) (r : ExecutionPolicyResult) → err e ≡ ok r → ⊥
not_refused e r h = cc

module _ {W : Type 0} (cs : List PolicyConstraint) where
  -- Take a well-formed plan, the workflow created for it, and any sequence of decisions on it. If the
  -- enforcer then reports that it executed the plan, no forbidding constraint applies to the plan,
  -- and the first well-formed decision was an approval by a named reviewer.
  pub executed_was_approved :
      (g : Gateway W) (plan : ActionPlan) (w : ActionApprovalWorkflow) (ds : List Decision)
      (name : String) (at : DateTime) (r : ExecutionPolicyResult)
      → IsPlan plan
      → create plan ≡ ok w
      → (execute cs (decide_all w ds) plan name at g).0 ≡ ok r
      → r.executed ≡ true
      → (any (violates plan) cs ≡ false) × ApprovedFirst ds
  executed_was_approved g plan w ds name at r p made returns executed =
      elim (execute_cases cs g (decide_all w ds) plan name at p
        (decided-IsWorkflow plan w ds p made)) [
          | inl (b, same, bad, idle) ↦
              absurd (not_idle b r (sym (ap (λ x. x.0) same) ∙ returns) idle executed)
          | inr (inl (e, refused)) ↦
              absurd (not_refused e r (sym (ap (λ x. x.0) refused) ∙ returns))
          | inr (inr h) ↦
              let (new, pending) = create_pending plan w made in
              (h.lawful, approved_by_first w ds new pending h.governed.approved_by.status)
        ]
