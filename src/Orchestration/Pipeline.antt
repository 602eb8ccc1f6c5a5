-- ===== src/Orchestration/Pipeline.antt =====
-- A plan through both engines: from its steps to the actions of a multi-action plan.
use yoma.Prelude.{
  ℕ, suc, String, ◌≡◌, refl, true, false, List, [], ◌∷◌, Option, none, All, is_empty,
  is_empty-concat, contains, ap,
}
use yoma.Result.{ok}
use yoma.Dict
use yoma.Dict.{Dict}
use yoma.Plan.{ActionPlan, ActionPlanStep}
use yoma.MultiAction.Model.{MultiAction, MultiActionExecutionPlan}
use yoma.MultiAction.Engine as Planning
use yoma.MultiAction.Engine.{action_id, execution_plan_id}
use yoma.MultiAction.Built.{IsBuildable, IsTyped, made_actions, made_plan}
use yoma.MultiAction.Built as Planned
use yoma.Orchestration.Model.{DecisionDependencyMap, ControlOrchestration}
use yoma.Orchestration.Engine.{build, dependency_lookup, orchestration_id}
use yoma.Orchestration.Built.{IsOrchestrable, Fits, made_steps, made_orchestration, build-made}
use yoma.Orchestration.Links.{links, dependencies_in, targets, contains-dependency_ids}

-- The action that stands for a step of the plan: numbered, with the step's words and targets, and
-- with the ids of the dependencies that name a target.
pub record IsActionOf (m : Option DecisionDependencyMap) (plan_id : String) (index : ℕ)
    (s : ActionPlanStep) (a : MultiAction) : Type 0 where
  pub action_id : a.action_id ≡ action_id plan_id index
  pub sequence : a.sequence ≡ index
  pub action_type : a.action_type ≡ s.action_type
  pub description : a.description ≡ s.description
  pub target_user_id : a.target_user_id ≡ s.target_user_id
  pub target_system_id : a.target_system_id ≡ s.target_system_id
  pub parameters : a.parameters ≡ s.parameters
  pub dependency_ids :
      (id : String) → contains a.dependency_ids id ≡ links (targets s) (dependencies_in m) id
  pub approval : a.requires_human_approval ≡ true
  pub executable : a.executable ≡ false

-- One action for each step, in order.
abbrev pub Follow :
    Option DecisionDependencyMap → String → ℕ → List ActionPlanStep → List MultiAction → Type 0
Follow m plan_id index [] [] = Unit
Follow m plan_id index (s ∷ steps) (a ∷ actions) =
    IsActionOf m plan_id index s a × Follow m plan_id (suc index) steps actions
Follow m plan_id index [] (a ∷ actions) = ⊥
Follow m plan_id index (s ∷ steps) [] = ⊥

-- The actions that the two engines make of the steps.
abbrev pub actions_of : ActionPlan → Option DecisionDependencyMap → List MultiAction
actions_of plan m =
    made_actions plan.plan_id 1 (made_steps plan.plan_id (dependency_lookup m) 1 plan.steps)

actions-Follow :
    (m : Option DecisionDependencyMap) (plan_id : String) (index : ℕ) (steps : List ActionPlanStep)
    → Follow m plan_id index steps
        (made_actions plan_id index (made_steps plan_id (dependency_lookup m) index steps))
unfolding made_actions made_steps
actions-Follow m plan_id index [] = tt
actions-Follow m plan_id index (s ∷ steps) = (
  record {
    action_id = refl;
    sequence = refl;
    action_type = refl;
    description = refl;
    target_user_id = refl;
    target_system_id = refl;
    parameters = refl;
    dependency_ids = contains-dependency_ids m s;
    approval = refl;
    executable = refl;
  },
  actions-Follow m plan_id (suc index) steps,
)

steps-IsTyped :
    (plan_id : String) (lookup : Dict (List String)) (index : ℕ) (steps : List ActionPlanStep)
    → All (λ (s : ActionPlanStep). is_empty s.action_type ≡ false) steps
    → All IsTyped (made_steps plan_id lookup index steps)
unfolding made_steps
steps-IsTyped plan_id lookup index [] t = tt
steps-IsTyped plan_id lookup index (s ∷ steps) t =
    (t.0, steps-IsTyped plan_id lookup (suc index) steps t.1)

orchestration-IsBuildable :
    (plan : ActionPlan) (m : Option DecisionDependencyMap)
    → IsOrchestrable plan
    → IsBuildable (made_orchestration plan m)
orchestration-IsBuildable plan m h = record {
  orchestration_id = is_empty-concat "ORCH-" plan.plan_id refl;
  plan_id = h.plan_id;
  decision_id = h.decision_id;
  typed = steps-IsTyped plan.plan_id (dependency_lookup m) 1 plan.steps h.typed;
}

-- The plan of actions that the two engines make, when they have not seen the plan.
pub engines-make :
    (plan : ActionPlan) (m : Option DecisionDependencyMap) (d : Dict ControlOrchestration)
    (e : Dict MultiActionExecutionPlan)
    → IsOrchestrable plan
    → Fits plan m
    → Dict.get d (orchestration_id plan.plan_id) ≡ none
    → Dict.get e (execution_plan_id (orchestration_id plan.plan_id)) ≡ none
    → ((build plan m d).0 ≡ ok (made_orchestration plan m))
      × ((Planning.build (made_orchestration plan m) e).0
          ≡ ok (made_plan (made_orchestration plan m)))
engines-make plan m d e h fits new unplanned = (
  ap (λ r. r.0) (build-made plan m d h fits new),
  ap (λ r. r.0)
      (Planned.build-made (made_orchestration plan m) e (orchestration-IsBuildable plan m h)
        unplanned),
)

-- A plan with ids and with a type for each step, and a map that belongs to it or none, through two
-- engines that have not seen it: `build` of both returns, and the plan of actions has one action
-- for each step, in order, with the step's words and targets, and with exactly those ids of
-- dependencies that the map has for a target of the step; no action is executable.
pub plan_becomes_actions :
    (plan : ActionPlan) (m : Option DecisionDependencyMap) (d : Dict ControlOrchestration)
    (e : Dict MultiActionExecutionPlan)
    → IsOrchestrable plan
    → Fits plan m
    → Dict.get d (orchestration_id plan.plan_id) ≡ none
    → Dict.get e (execution_plan_id (orchestration_id plan.plan_id)) ≡ none
    → (o : ControlOrchestration) × (p : MultiActionExecutionPlan) × ((build plan m d).0 ≡ ok o)
      × ((Planning.build o e).0 ≡ ok p)
      × Follow m plan.plan_id 1 plan.steps p.actions
plan_becomes_actions plan m d e h fits new unplanned =
    let (built, planned) = engines-make plan m d e h fits new unplanned in
    (
      made_orchestration plan m,
      made_plan (made_orchestration plan m),
      built,
      planned,
      actions-Follow m plan.plan_id 1 plan.steps,
    )
