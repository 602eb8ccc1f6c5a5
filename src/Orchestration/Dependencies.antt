-- ===== src/Orchestration/Dependencies.antt =====
-- `DecisionDependencyEngine`: the dependency map of a plan, from the entities that the plan names.
use yoma.Prelude.{
  String, Bool, true, List, [], ◌∷◌, ◌++◌, Option, none, some, ◌==◌, is_empty, is_nil, concat,
  decimal, dedupe, text_leb, length, if◌then◌else◌,
}
use yoma.Result.{Result, ok, ◌>>=◌}
use yoma.Dict
use yoma.Dict.{Dict}
use yoma.Sorted.{sort_by}
use yoma.Value.{Value}
use yoma.Plan.{ActionPlan, ActionPlanStep}
use yoma.Orchestration.Model.{
  DecisionDependency, dependency_post_init, DecisionDependencyMap, map_post_init,
}

-- `if entity_id:` for an optional id: none, the empty one, or an id.
abbrev pub named : Option String → List String
named none = []
named (some id) = if is_empty id then [] else id ∷ []

abbrev pub affected_of : String → String → String → String → String → String → DecisionDependency
affected_of plan_id tag kind relationship reason id = record {
  dependency_id = concat "DEP-" (concat plan_id (concat tag id));
  dependency_type = kind;
  entity_id = id;
  relationship = relationship;
  reason = reason;
  direct = true;
  content = ("plan_id", Value.text plan_id) ∷ [];
}

abbrev pub affected_user : String → String → DecisionDependency
affected_user plan_id =
    affected_of plan_id "-USER-" "user" "affected_user"
      "The proposed action directly affects this user."

abbrev pub affected_system : String → String → DecisionDependency
affected_system plan_id =
    affected_of plan_id "-SYSTEM-" "system" "affected_system"
      "The proposed action directly affects this system."

abbrev pub target_of :
    String → ActionPlanStep → String → String → String → String → DecisionDependency
target_of plan_id s tag kind reason id = record {
  dependency_id =
      concat "DEP-"
        (concat plan_id (concat "-STEP-" (concat (decimal s.sequence) (concat tag id))));
  dependency_type = kind;
  entity_id = id;
  relationship = "action_step_target";
  reason = reason;
  direct = true;
  content = ("step_id", Value.text s.step_id) ∷ ("action_type", Value.text s.action_type) ∷ [];
}

abbrev pub target_user : String → ActionPlanStep → String → DecisionDependency
target_user plan_id s =
    target_of plan_id s "-USER-" "user" "This user is an explicit target of an action-plan step."

abbrev pub target_system : String → ActionPlanStep → String → DecisionDependency
target_system plan_id s =
    target_of plan_id s "-SYSTEM-" "system"
      "This system is an explicit target of an action-plan step."

-- `for id in ids: dependencies.append(DecisionDependency(...))`
unfoldable pub append_each :
    (String → DecisionDependency) → List String → Result (List DecisionDependency)
append_each f [] = ok []
append_each f (id ∷ ids) = do d ← dependency_post_init (f id); ds ← append_each f ids; ok (d ∷ ds)

unfoldable pub append_targets : String → List ActionPlanStep → Result (List DecisionDependency)
append_targets plan_id [] = ok []
append_targets plan_id (s ∷ steps) = do
  users ← append_each (target_user plan_id s) (named s.target_user_id)
  systems ← append_each (target_system plan_id s) (named s.target_system_id)
  ds ← append_targets plan_id steps
  ok (users ++ systems ++ ds)

-- `{dependency.dependency_id: dependency for dependency in dependencies}`, on top of a dictionary.
abbrev pub by_id : Dict DecisionDependency → List DecisionDependency → Dict DecisionDependency
by_id d [] = d
by_id d (x ∷ xs) = by_id (Dict.put d x.dependency_id x) xs

-- The order of the tuples of type, entity and id.
abbrev pub dependency_leb : DecisionDependency → DecisionDependency → Bool
dependency_leb a b =
    if a.dependency_type == b.dependency_type
    then (if a.entity_id == b.entity_id
        then text_leb a.dependency_id b.dependency_id
        else text_leb a.entity_id b.entity_id)
    else text_leb a.dependency_type b.dependency_type

unfoldable pub ordered_of : List DecisionDependency → List DecisionDependency
ordered_of ds = sort_by dependency_leb (Dict.values (by_id [] ds))

abbrev pub map_of : ActionPlan → List DecisionDependency → DecisionDependencyMap
map_of plan ordered = record {
  dependency_map_id = concat "DMAP-" plan.plan_id;
  plan_id = plan.plan_id;
  decision_id = plan.decision_id;
  dependencies = ordered;
  affected_user_ids = sort_by text_leb (dedupe plan.affected_user_ids);
  affected_system_ids = sort_by text_leb (dedupe plan.affected_system_ids);
  dependency_depth = if is_nil ordered then 0 else 1;
  requires_human_approval = true;
  metadata =
      ("step_count", Value.number (length plan.steps))
      ∷ ("dependency_count", Value.number (length ordered))
      ∷ [];
}

unfoldable pub analyze : ActionPlan → Result DecisionDependencyMap
analyze plan = do
  users ← append_each (affected_user plan.plan_id) plan.affected_user_ids
  systems ← append_each (affected_system plan.plan_id) plan.affected_system_ids
  targets ← append_targets plan.plan_id plan.steps
  map_post_init (map_of plan (ordered_of (users ++ systems ++ targets)))

unfoldable pub analyze_many : List ActionPlan → Result (List DecisionDependencyMap)
analyze_many [] = ok []
analyze_many (plan ∷ plans) = do m ← analyze plan; ms ← analyze_many plans; ok (m ∷ ms)
