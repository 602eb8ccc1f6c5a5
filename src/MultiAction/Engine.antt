-- ===== src/MultiAction/Engine.antt =====
-- `MultiActionExecutionPlanEngine`; its state is the dictionary of plans.
use yoma.Prelude.{
  ℕ, suc, String, true, false, List, [], ◌∷◌, Option, none, some, concat, decimal, length,
}
use yoma.Result.{Result, ok}
use yoma.Result as Outcome
use yoma.Exec.{Exec, return, lift, modify, ◌>>=◌, ◌>>◌}
use yoma.Dict
use yoma.Dict.{Dict}
use yoma.Value.{Value}
use yoma.Orchestration.Model.{OrchestrationStep, ControlOrchestration}
use yoma.MultiAction.Model.{MultiAction, action_post_init, MultiActionExecutionPlan, plan_post_init}

abbrev pub action_id : String → ℕ → String
action_id plan_id index = concat "MACT-" (concat plan_id (concat "-" (decimal index)))

abbrev pub action_of : String → ℕ → OrchestrationStep → MultiAction
action_of plan_id index s = record {
  action_id = action_id plan_id index;
  sequence = index;
  action_type = s.action_type;
  description = s.description;
  target_user_id = s.target_user_id;
  target_system_id = s.target_system_id;
  dependency_ids = s.dependency_ids;
  parameters = s.parameters;
  requires_human_approval = true;
  executable = false;
}

-- The actions of `enumerate(orchestration.steps, start=index)`.
unfoldable pub actions_from : String → ℕ → List OrchestrationStep → Result (List MultiAction)
actions_from plan_id index [] = ok []
actions_from plan_id index (s ∷ steps) =
    Outcome.◌>>=◌ (action_post_init (action_of plan_id index s))
      (λ a. Outcome.◌>>=◌ (actions_from plan_id (suc index) steps) (λ rest. ok (a ∷ rest)))

abbrev pub execution_plan_id : String → String
execution_plan_id orchestration_id = concat "MAPLAN-" orchestration_id

abbrev pub plan_of : ControlOrchestration → List MultiAction → MultiActionExecutionPlan
plan_of o actions = record {
  execution_plan_id = execution_plan_id o.orchestration_id;
  orchestration_id = o.orchestration_id;
  plan_id = o.plan_id;
  decision_id = o.decision_id;
  created_at = o.created_at;
  actions = actions;
  requires_human_approval = true;
  executable = false;
  metadata =
      ("source", Value.text "m33.1_control_orchestration")
      ∷ ("action_count", Value.number (length actions))
      ∷ [];
}

unfoldable pub build_new :
    ControlOrchestration → Exec (Dict MultiActionExecutionPlan) MultiActionExecutionPlan
build_new o = do
  actions ← lift (actions_from o.plan_id 1 o.steps)
  p ← lift (plan_post_init (plan_of o actions))
  modify (λ d. Dict.put d (execution_plan_id o.orchestration_id) p)
  return p

abbrev pub known_or :
    Option MultiActionExecutionPlan
    → Exec (Dict MultiActionExecutionPlan) MultiActionExecutionPlan
    → Exec (Dict MultiActionExecutionPlan) MultiActionExecutionPlan
known_or (some p) m = return p
known_or none m = m

unfoldable pub build :
    ControlOrchestration → Exec (Dict MultiActionExecutionPlan) MultiActionExecutionPlan
build o d = known_or (Dict.get d (execution_plan_id o.orchestration_id)) (build_new o) d

-- The orchestrations in turn; the first exception ends the call.
unfoldable pub build_many :
    List ControlOrchestration → Exec (Dict MultiActionExecutionPlan) (List MultiActionExecutionPlan)
build_many [] = return []
build_many (o ∷ os) = do p ← build o; ps ← build_many os; return (p ∷ ps)
