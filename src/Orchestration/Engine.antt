-- ===== src/Orchestration/Engine.antt =====
-- `ControlOrchestrationEngine`; its state is the dictionary of orchestrations.
use yoma.Prelude.{
  ℕ, suc, String, true, false, not, List, [], ◌∷◌, ◌++◌, Option, none, some, ◌==◌, concat, decimal,
  dedupe, text_leb, or_default,
}
use yoma.Result.{Result, ok, value_error, raise_if}
use yoma.Result as Outcome
use yoma.Exec.{Exec, return, lift, modify, ◌>>=◌, ◌>>◌}
use yoma.Dict
use yoma.Dict.{Dict}
use yoma.Sorted.{sort_by}
use yoma.Value.{Value}
use yoma.Plan.{ActionPlan, ActionPlanStep}
use yoma.Orchestration.Model.{
  DecisionDependency, DecisionDependencyMap, OrchestrationStep, step_post_init,
  ControlOrchestration, orchestration_post_init,
}
use yoma.Orchestration.Dependencies.{named}

-- `lookup.setdefault(entity_id, []).append(dependency_id)`
abbrev pub enlist : Dict (List String) → DecisionDependency → Dict (List String)
enlist d x = Dict.put d x.entity_id (or_default (Dict.get d x.entity_id) [] ++ x.dependency_id ∷ [])

unfoldable pub lookup_from : Dict (List String) → List DecisionDependency → Dict (List String)
lookup_from d [] = d
lookup_from d (x ∷ xs) = lookup_from (enlist d x) xs

unfoldable pub dependency_lookup : Option DecisionDependencyMap → Dict (List String)
unfolding lookup_from
dependency_lookup none = []
dependency_lookup (some m) = lookup_from [] m.dependencies

-- `dependency_lookup.get(entity_id, ())`
abbrev pub listed : Dict (List String) → String → List String
listed lookup id = or_default (Dict.get lookup id) []

-- What `dependency_ids.update` adds for an entity that a step may name.
abbrev pub listed_for : Dict (List String) → List String → List String
listed_for lookup [] = []
listed_for lookup (id ∷ ids) = listed lookup id ++ listed_for lookup ids

-- `tuple(sorted(dependency_ids))`
unfoldable pub dependency_ids_of : Dict (List String) → ActionPlanStep → List String
dependency_ids_of lookup s =
    sort_by text_leb
      (dedupe (listed_for lookup (named s.target_user_id ++ named s.target_system_id)))

abbrev pub step_of : String → Dict (List String) → ℕ → ActionPlanStep → OrchestrationStep
step_of plan_id lookup index s = record {
  step_id = concat "OSTEP-" (concat plan_id (concat "-" (decimal index)));
  sequence = index;
  plan_id = plan_id;
  action_type = s.action_type;
  description = s.description;
  target_user_id = s.target_user_id;
  target_system_id = s.target_system_id;
  dependency_ids = dependency_ids_of lookup s;
  parameters = s.parameters;
  requires_human_approval = true;
  executable = false;
}

-- The loop over `enumerate(plan.steps, start=index)`.
unfoldable pub steps_from :
    String → Dict (List String) → ℕ → List ActionPlanStep → Result (List OrchestrationStep)
steps_from plan_id lookup index [] = ok []
steps_from plan_id lookup index (s ∷ steps) =
    Outcome.◌>>=◌ (step_post_init (step_of plan_id lookup index s))
      (λ t. Outcome.◌>>=◌ (steps_from plan_id lookup (suc index) steps) (λ ts. ok (t ∷ ts)))

abbrev pub map_id_of : Option DecisionDependencyMap → Option String
map_id_of none = none
map_id_of (some m) = some m.dependency_map_id

abbrev pub depth_of : Option DecisionDependencyMap → ℕ
depth_of none = 0
depth_of (some m) = m.dependency_depth

abbrev pub orchestration_id : String → String
orchestration_id plan_id = concat "ORCH-" plan_id

abbrev pub orchestration_of :
    ActionPlan → Option DecisionDependencyMap → List OrchestrationStep → ControlOrchestration
orchestration_of plan m steps = record {
  orchestration_id = orchestration_id plan.plan_id;
  plan_id = plan.plan_id;
  decision_id = plan.decision_id;
  created_at = plan.created_at;
  steps = steps;
  dependency_map_id = map_id_of m;
  affected_user_ids = sort_by text_leb plan.affected_user_ids;
  affected_system_ids = sort_by text_leb plan.affected_system_ids;
  requires_human_approval = true;
  executable = false;
  metadata =
      ("decision_type", Value.text plan.decision_type)
      ∷ ("priority", Value.text plan.priority)
      ∷ ("reason", Value.text plan.reason)
      ∷ ("dependency_depth", Value.number (depth_of m))
      ∷ [];
}

-- The tests that the map belongs to the plan.
unfoldable pub check_map : ActionPlan → Option DecisionDependencyMap → Result (Unit {0})
check_map plan none = ok tt
check_map plan (some m) =
    Outcome.◌>>◌
      (raise_if (not (m.plan_id == plan.plan_id))
        (value_error "dependency map plan_id must match action plan"))
      (raise_if (not (m.decision_id == plan.decision_id))
        (value_error "dependency map decision_id must match action plan"))

unfoldable pub build_new :
    ActionPlan
    → Option DecisionDependencyMap
    → Exec (Dict ControlOrchestration) ControlOrchestration
build_new plan m = do
  steps ← lift (steps_from plan.plan_id (dependency_lookup m) 1 plan.steps)
  o ← lift (orchestration_post_init (orchestration_of plan m steps))
  modify (λ d. Dict.put d (orchestration_id plan.plan_id) o)
  return o

abbrev pub known_or :
    Option ControlOrchestration
    → Exec (Dict ControlOrchestration) ControlOrchestration
    → Exec (Dict ControlOrchestration) ControlOrchestration
known_or (some o) m = return o
known_or none m = m

unfoldable pub build :
    ActionPlan
    → Option DecisionDependencyMap
    → Exec (Dict ControlOrchestration) ControlOrchestration
build plan m d =
    (do
      lift (check_map plan m)
      known_or (Dict.get d (orchestration_id plan.plan_id)) (build_new plan m))
      d

-- `{dependency_map.plan_id: dependency_map for dependency_map in dependency_maps}`
abbrev pub by_plan :
    Dict DecisionDependencyMap → List DecisionDependencyMap → Dict DecisionDependencyMap
by_plan d [] = d
by_plan d (m ∷ ms) = by_plan (Dict.put d m.plan_id m) ms

-- The plans in turn; the first exception ends the call.
unfoldable pub build_each :
    Dict DecisionDependencyMap
    → List ActionPlan
    → Exec (Dict ControlOrchestration) (List ControlOrchestration)
build_each lookup [] = return []
build_each lookup (plan ∷ plans) = do
  o ← build plan (Dict.get lookup plan.plan_id)
  os ← build_each lookup plans
  return (o ∷ os)

unfoldable pub build_many :
    List ActionPlan
    → List DecisionDependencyMap
    → Exec (Dict ControlOrchestration) (List ControlOrchestration)
build_many plans maps = build_each (by_plan [] maps) plans
