-- ===== src/Bridge/Governed.antt =====
-- What has to hold for the bridge to execute.
use yoma.Prelude.{
  String, ◌≡◌, ◌⊎◌, inl, inr, refl, true, false, List, [], ◌∷◌, some, ◌==◌, eq_iff, is_empty, last?,
  arith, starts_with, Bool-cases, Option-cases,
}
use yoma.Result.{Error, Result, ok, err, value_error, permission_error}
use yoma.Value.{Mapping, DateTime}
use yoma.Plan.{ActionPlan, ActionPlanStep}
use yoma.Approval.Model.{approved, is_approved, ActionApprovalWorkflow, ApprovalRecord, IsWorkflow}
use yoma.Gateway.Model.{ExecutionResult, Gateway}
use yoma.Gateway.Records.{Ran, ran, execute_approved_cases, final_result}
use yoma.Bridge.Approved.{approval_details, first_details, request_of, execute_approved}

workflow_id_nonempty : (s : String) → starts_with s "AWF-" ≡ true → is_empty s ≡ false
workflow_id_nonempty s h = elim (Bool-cases (is_empty s)) [
  | inl e ↦ cc (rw ((eq_iff s "").0 e) at h)
  | inr n ↦ n
]

-- The approval that a workflow shows.
pub record IsApprovedBy (w : ActionApprovalWorkflow) (r : ApprovalRecord) : Type 0 where
  pub status : w.status ≡ approved
  pub last : last? w.approval_history ≡ some r
  pub named : is_empty r.approval_id ≡ false

-- A pure check of a method: it raises, or returns a value with a property.
abbrev Checked {ℓ κ} : {A : Type ℓ} → Result A → (A → Type κ) → Type (ℓ ⊔ κ)
Checked {A} r P = ((e : Error) × (r ≡ err e)) ⊎ ((a : A) × (r ≡ ok a) × P a)

approval_details_cases :
    (w : ActionApprovalWorkflow)
    → Checked
        (approval_details w)
        (λ id. (r : ApprovalRecord) × IsApprovedBy w r × (id ≡ r.approval_id))
approval_details_cases w = elim (Bool-cases (is_approved w.status)) [
  | inr other ↦ inl (permission_error "execution requires an approved workflow", rw other)
  | inl is_app ↦ elim (Option-cases (last? w.approval_history)) [
    | inl no_history ↦
        inl (value_error "approved workflow has no approval history", rw (is_app, no_history))
    | inr (r, last) ↦ elim (Bool-cases (is_empty r.approval_id)) [
      | inl unnamed ↦
          inl (value_error "approval history record has no approval_id", rw (is_app, last, unnamed))
      | inr named ↦ inr (
        r.approval_id,
        rw (is_app, last, named),
        (r, record { status = ground arith; last = last; named = named }, refl),
      )
    ]
  ]
]

abbrev pub details_of : ActionPlanStep → String × String × Mapping
details_of s = (s.step_id, s.action_type, s.parameters)

first_details_cases :
    (steps : List ActionPlanStep)
    → Checked (first_details steps) (λ d.
      (s : ActionPlanStep) × (rest : List ActionPlanStep) × (steps ≡ s ∷ rest) × (d ≡ details_of s))
first_details_cases [] = inl (value_error "action plan contains no steps", refl)
first_details_cases (s ∷ rest) = elim (Bool-cases (is_empty s.step_id)) [
  | inl no_id ↦ inl (value_error "action plan step has no action identifier", rw no_id)
  | inr has_id ↦ elim (Bool-cases (is_empty s.action_type)) [
    | inl no_type ↦ inl (value_error "action plan step has no action type", rw (has_id, no_type))
    | inr has_type ↦ inr (details_of s, rw (has_id, has_type), (s, rest, refl, refl))
  ]
]

module _ {W : Type 0} where
  -- What has to hold for the bridge to execute, and what it then does: one run of the gateway, for
  -- the first step of the plan.
  pub record Governed (g : Gateway W) (w : ActionApprovalWorkflow) (plan : ActionPlan)
      (name : String) (at : DateTime) : Type 0 where
    pub plan_id : w.plan_id ≡ plan.plan_id
    pub decision_id : w.decision_id ≡ plan.decision_id
    pub approval : ApprovalRecord
    pub approved_by : IsApprovedBy w approval
    pub step : ActionPlanStep
    pub rest : List ActionPlanStep
    pub steps : plan.steps ≡ step ∷ rest
    pub gateway : Ran g (request_of (details_of step) name at)

  abbrev pub governed_result :
      (g : Gateway W) (w : ActionApprovalWorkflow) (plan : ActionPlan) (name : String)
      (at : DateTime)
      → Governed g w plan name at
      → ExecutionResult
  governed_result g w plan name at h =
      let q = request_of (details_of h.step) name at in
      final_result q (h.gateway.executor q.action_id q.action_type q.parameters g.world).0

  -- The bridge refuses a request and changes nothing, or the request is governed and the gateway is
  -- left as its one run leaves it.
  pub bridge_cases :
      (g : Gateway W) (w : ActionApprovalWorkflow) (plan : ActionPlan) (name : String)
      (at : DateTime)
      → IsWorkflow w
      → ((e : Error) × (execute_approved w plan name at g ≡ (err e, g)))
        ⊎ ((h : Governed g w plan name at) × (execute_approved w plan name at g ≡ (
          ok (record {
            execution = governed_result g w plan name at h;
            workflow_id = w.workflow_id;
            approval_id = h.approval.approval_id;
            approved = true;
            requires_human_approval = true;
          }),
          (ran g (request_of (details_of h.step) name at) h.gateway.executor).1,
        )))
  unfolding execute_approved
  bridge_cases g w plan name at v = elim (Bool-cases (w.plan_id == plan.plan_id)) [
    | inr other ↦ inl (value_error "workflow and plan IDs do not match", rw other)
    | inl same_plan ↦ elim (Bool-cases (w.decision_id == plan.decision_id)) [
      | inr other ↦
          inl (value_error "workflow and plan decision IDs do not match", rw (same_plan, other))
      | inl same_decision ↦ elim (approval_details_cases w) [
        | inl (e, refused) ↦ inl (e, rw (same_plan, same_decision, refused))
        | inr (id, shown, (r, by, e)) ↦ elim (first_details_cases plan.steps) [
          | inl (e', refused) ↦ inl (e', rw (same_plan, same_decision, shown, refused))
          | inr (d, taken, (s, rest, steps, e')) ↦
              elim (execute_approved_cases g (request_of (details_of s) name at)) [
                | inl (e'', refused) ↦
                    inl (e'', rw (same_plan, same_decision, shown, taken, e', refused))
                | inr run ↦ inr (
                  record {
                    plan_id = (eq_iff w.plan_id plan.plan_id).0 same_plan;
                    decision_id = (eq_iff w.decision_id plan.decision_id).0 same_decision;
                    approval = r;
                    approved_by = by;
                    step = s;
                    rest = rest;
                    steps = steps;
                    gateway = run;
                  },
                  rw (
                    same_plan,
                    same_decision,
                    shown,
                    taken,
                    e',
                    run.run,
                    workflow_id_nonempty w.workflow_id v.workflow_id,
                    e,
                    by.named,
                  ),
                )
              ]
        ]
      ]
    ]
  ]
