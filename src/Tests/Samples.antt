-- ===== src/Tests/Samples.antt =====
-- A plan, its workflow, decisions, constraints and a gateway with one executor, for the examples.
use yoma.Prelude.{ℕ, suc, String, true, false, List, [], ◌∷◌, none, refl}
use yoma.Value.{DateTime}
use yoma.Plan.{ActionPlan, ActionPlanStep, IsPlan, counts_from}
use yoma.Approval.Model.{ActionApprovalWorkflow, Status, IsWorkflow}
use yoma.Approval.Lifecycle.{Decision}
use yoma.Policy.Check.{PolicyConstraint}
use yoma.Gateway.Model.{Gateway, Executor, Outcome}
use yoma.Gateway.Execute.{Request}
use yoma.Gateway.Records.{IsRequest}

abbrev pub noon : DateTime
noon = record { instant = 43200000000; aware = true }

abbrev pub step : String → ℕ → String → ActionPlanStep
step id sequence type = record {
  step_id = id;
  sequence = sequence;
  action_type = type;
  description = "a step";
  target_user_id = none;
  target_system_id = none;
  parameters = [];
  evidence_ids = [];
  requires_human_approval = true;
}

abbrev pub plan : ActionPlan
plan = record {
  plan_id = "APLAN-1";
  decision_id = "DINT-1";
  created_at = noon;
  decision_type = "restart";
  priority = "high";
  reason = "slow";
  steps = step "STEP-1" 1 "restart" ∷ step "STEP-2" 2 "notify" ∷ [];
  evidence = [];
  affected_user_ids = "u1" ∷ [];
  affected_system_ids = "s1" ∷ [];
  requires_human_approval = true;
  metadata = [];
}

pub plan-IsPlan : IsPlan plan
unfolding counts_from
plan-IsPlan = record { plan_id = refl; decision_id = refl; human = refl; contiguous = refl }

abbrev pub workflow : ActionApprovalWorkflow
workflow = record {
  workflow_id = "AWF-APLAN-1";
  plan_id = "APLAN-1";
  decision_id = "DINT-1";
  status = Status.pending;
  approval_history = [];
  requires_human_approval = true;
  metadata = [];
}

pub workflow-IsWorkflow : IsWorkflow workflow
workflow-IsWorkflow = record {
  workflow_id = refl;
  plan_id = refl;
  decision_id = refl;
  human = refl;
}

-- A reviewer without a name, an approval, and a rejection that comes too late.
abbrev pub decisions : List Decision
decisions =
    Decision.approval "" noon "ok"
    ∷ Decision.approval "ann" noon "ok"
    ∷ Decision.rejection "bob" noon "no"
    ∷ []

abbrev pub constraint : String → List String → PolicyConstraint
constraint id types = record {
  constraint_id = id;
  constraint_type = "action";
  description = "forbidden";
  allowed = false;
  action_types = types;
  priorities = [];
  user_ids = [];
  system_ids = [];
  metadata = [];
}

abbrev pub no_delete : List PolicyConstraint
no_delete = constraint "POL-1" ("delete" ∷ []) ∷ []

-- An executor that counts its calls in the world.
abbrev pub count_call : Executor ℕ
count_call id type parameters calls = (Outcome.returned [], suc calls)

abbrev pub gateway : Gateway ℕ
gateway = record { executors = ("ops", count_call) ∷ []; records = []; world = 0 }

abbrev pub request : String → Request
request id = record {
  action_id = id;
  action_type = "restart";
  executor_name = "ops";
  created_at = noon;
  parameters = [];
}

pub request-IsRequest : IsRequest (request "A")
request-IsRequest = record { has_id = refl; has_type = refl }
