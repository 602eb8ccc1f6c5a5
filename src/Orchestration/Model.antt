-- ===== src/Orchestration/Model.antt =====
-- `DecisionDependency`, `DecisionDependencyMap`, `OrchestrationStep` and `ControlOrchestration`,
-- with the checks of their constructors. A negative depth, which the source refuses, has no value.
use mathlib.Core.List.{flatten}
use yoma.Prelude.{
  ℕ, String, Bool, List, [], ◌∷◌, Option, ◌==◌, map, is_empty, starts_with, ltb, length, keep,
  first?, last?, dedupe, text_leb,
}
use yoma.Sorted.{sort_by}
use yoma.Result.{Result, ok, value_error, raise_if, raise_unless, ◌>>◌}
use yoma.Value.{Mapping, DateTime}
use yoma.MultiAction.Model.{is_ascending, is_unique_numbers}

pub record DecisionDependency : Type 0 where
  pub dependency_id : String
  pub dependency_type : String
  pub entity_id : String
  pub relationship : String
  pub reason : String
  pub direct : Bool
  pub content : Mapping

unfoldable pub dependency_post_init : DecisionDependency → Result DecisionDependency
dependency_post_init d = do
  raise_unless (starts_with d.dependency_id "DEP-")
      (value_error "dependency_id must start with DEP-")
  raise_if (is_empty d.dependency_type) (value_error "dependency_type must not be empty")
  raise_if (is_empty d.entity_id) (value_error "entity_id must not be empty")
  raise_if (is_empty d.relationship) (value_error "relationship must not be empty")
  raise_if (is_empty d.reason) (value_error "reason must not be empty")
  ok d

pub record DecisionDependencyMap : Type 0 where
  pub dependency_map_id : String
  pub plan_id : String
  pub decision_id : String
  pub dependencies : List DecisionDependency
  pub affected_user_ids : List String
  pub affected_system_ids : List String
  pub dependency_depth : ℕ
  pub requires_human_approval : Bool
  pub metadata : Mapping

unfoldable pub map_post_init : DecisionDependencyMap → Result DecisionDependencyMap
map_post_init m = do
  raise_unless (starts_with m.dependency_map_id "DMAP-")
      (value_error "dependency_map_id must start with DMAP-")
  raise_unless (starts_with m.plan_id "APLAN-") (value_error "plan_id must start with APLAN-")
  raise_unless (starts_with m.decision_id "DINT-") (value_error "decision_id must start with DINT-")
  raise_unless m.requires_human_approval (value_error "dependency analysis requires human approval")
  ok m

pub record OrchestrationStep : Type 0 where
  pub step_id : String
  pub sequence : ℕ
  pub plan_id : String
  pub action_type : String
  pub description : String
  pub target_user_id : Option String
  pub target_system_id : Option String
  pub dependency_ids : List String
  pub parameters : Mapping
  pub requires_human_approval : Bool
  pub executable : Bool

unfoldable pub step_post_init : OrchestrationStep → Result OrchestrationStep
step_post_init s = do
  raise_if (is_empty s.step_id) (value_error "step_id is required")
  raise_unless (starts_with s.step_id "OSTEP-") (value_error "step_id must start with OSTEP-")
  raise_if (is_empty s.plan_id) (value_error "plan_id is required")
  raise_if (ltb s.sequence 1) (value_error "sequence must be >= 1")
  raise_if (is_empty s.action_type) (value_error "action_type is required")
  raise_unless s.requires_human_approval (value_error "orchestration steps require human approval")
  raise_if s.executable (value_error "orchestration steps are not executable")
  ok s

pub record ControlOrchestration : Type 0 where
  pub orchestration_id : String
  pub plan_id : String
  pub decision_id : String
  pub created_at : DateTime
  pub steps : List OrchestrationStep
  pub dependency_map_id : Option String
  pub affected_user_ids : List String
  pub affected_system_ids : List String
  pub requires_human_approval : Bool
  pub executable : Bool
  pub metadata : Mapping

abbrev pub step_sequences : List OrchestrationStep → List ℕ
step_sequences = map (λ (s : OrchestrationStep). s.sequence)

-- The loop over the steps: the first one that fails a test decides the message.
unfoldable pub check_steps : String → List OrchestrationStep → Result (Unit {0})
check_steps plan_id [] = ok tt
check_steps plan_id (s ∷ steps) = do
  raise_unless (s.plan_id == plan_id)
      (value_error "all orchestration steps must belong to the plan")
  raise_unless s.requires_human_approval
      (value_error "all orchestration steps require human approval")
  raise_if s.executable (value_error "orchestration steps cannot be executable")
  check_steps plan_id steps

unfoldable pub orchestration_post_init : ControlOrchestration → Result ControlOrchestration
unfolding check_steps
orchestration_post_init o = do
  raise_if (is_empty o.orchestration_id) (value_error "orchestration_id is required")
  raise_unless (starts_with o.orchestration_id "ORCH-")
      (value_error "orchestration_id must start with ORCH-")
  raise_if (is_empty o.plan_id) (value_error "plan_id is required")
  raise_if (is_empty o.decision_id) (value_error "decision_id is required")
  raise_unless o.requires_human_approval (value_error "orchestration requires human approval")
  raise_if o.executable (value_error "orchestration is not executable")
  raise_unless (is_ascending (step_sequences o.steps))
      (value_error "orchestration steps must be ordered by sequence")
  raise_unless (is_unique_numbers (step_sequences o.steps))
      (value_error "orchestration step sequences must be unique")
  check_steps o.plan_id o.steps
  ok o

-- The properties of a map and of an orchestration.
abbrev pub user_dependency_count : DecisionDependencyMap → ℕ
user_dependency_count m =
    length (keep (λ (d : DecisionDependency). d.dependency_type == "user") m.dependencies)

abbrev pub system_dependency_count : DecisionDependencyMap → ℕ
system_dependency_count m =
    length (keep (λ (d : DecisionDependency). d.dependency_type == "system") m.dependencies)

abbrev pub first_step : ControlOrchestration → Option OrchestrationStep
first_step o = first? o.steps

abbrev pub last_step : ControlOrchestration → Option OrchestrationStep
last_step o = last? o.steps

abbrev pub action_types : ControlOrchestration → List String
action_types o = map (λ (s : OrchestrationStep). s.action_type) o.steps

abbrev pub dependency_ids : ControlOrchestration → List String
dependency_ids o =
    sort_by text_leb (dedupe (flatten (map (λ (s : OrchestrationStep). s.dependency_ids) o.steps)))
