-- ===== src/MultiAction/Model.antt =====
-- `MultiAction` and `MultiActionExecutionPlan`, with the checks of their constructors.
use mathlib.Core.List.{flatten}
use yoma.Prelude.{
  ℕ, String, Bool, true, List, [], ◌∷◌, Option, map, is_empty, starts_with, leb, ltb, eqb,
  is_unique, not, any, ◌&&◌, first?, last?, dedupe, text_leb,
}
use yoma.Sorted.{sort_by}
use yoma.Result.{Result, ok, value_error, raise_if, raise_unless, ◌>>◌}
use yoma.Value.{Mapping, DateTime}

pub record MultiAction : Type 0 where
  pub action_id : String
  pub sequence : ℕ
  pub action_type : String
  pub description : String
  pub target_user_id : Option String
  pub target_system_id : Option String
  pub dependency_ids : List String
  pub parameters : Mapping
  pub requires_human_approval : Bool
  pub executable : Bool

unfoldable pub action_post_init : MultiAction → Result MultiAction
action_post_init a = do
  raise_if (is_empty a.action_id) (value_error "action_id is required")
  raise_unless (starts_with a.action_id "MACT-") (value_error "action_id must start with MACT-")
  raise_if (ltb a.sequence 1) (value_error "sequence must be >= 1")
  raise_if (is_empty a.action_type) (value_error "action_type is required")
  raise_unless a.requires_human_approval (value_error "multi-actions require human approval")
  raise_if a.executable (value_error "multi-actions are not executable")
  ok a

pub record MultiActionExecutionPlan : Type 0 where
  pub execution_plan_id : String
  pub orchestration_id : String
  pub plan_id : String
  pub decision_id : String
  pub created_at : DateTime
  pub actions : List MultiAction
  pub requires_human_approval : Bool
  pub executable : Bool
  pub metadata : Mapping

abbrev pub action_ids : List MultiAction → List String
action_ids = map (λ (a : MultiAction). a.action_id)

abbrev pub sequences : List MultiAction → List ℕ
sequences = map (λ (a : MultiAction). a.sequence)

-- `sequences == tuple(sorted(sequences))`
abbrev pub is_ascending : List ℕ → Bool
is_ascending [] = true
is_ascending (x ∷ []) = true
is_ascending (x ∷ y ∷ ys) = leb x y && is_ascending (y ∷ ys)

-- `len(set(sequences)) == len(sequences)`
abbrev pub is_unique_numbers : List ℕ → Bool
is_unique_numbers [] = true
is_unique_numbers (x ∷ xs) = not (any (eqb x) xs) && is_unique_numbers xs

-- The loop over the actions: the first one that fails a test decides the message.
unfoldable pub check_actions : List MultiAction → Result (Unit {0})
check_actions [] = ok tt
check_actions (a ∷ actions) = do
  raise_unless a.requires_human_approval (value_error "all multi-actions require human approval")
  raise_if a.executable (value_error "multi-actions cannot be executable")
  check_actions actions

unfoldable pub plan_post_init : MultiActionExecutionPlan → Result MultiActionExecutionPlan
unfolding check_actions
plan_post_init p = do
  raise_if (is_empty p.execution_plan_id) (value_error "execution_plan_id is required")
  raise_unless (starts_with p.execution_plan_id "MAPLAN-")
      (value_error "execution_plan_id must start with MAPLAN-")
  raise_if (is_empty p.orchestration_id) (value_error "orchestration_id is required")
  raise_if (is_empty p.plan_id) (value_error "plan_id is required")
  raise_if (is_empty p.decision_id) (value_error "decision_id is required")
  raise_unless p.requires_human_approval (value_error "multi-action plans require human approval")
  raise_if p.executable (value_error "multi-action plans are not executable")
  raise_unless (is_ascending (sequences p.actions))
      (value_error "actions must be ordered by sequence")
  raise_unless (is_unique_numbers (sequences p.actions))
      (value_error "action sequences must be unique")
  raise_unless (is_unique (action_ids p.actions)) (value_error "action IDs must be unique")
  check_actions p.actions
  ok p

-- The properties of a plan.
abbrev pub first_action : MultiActionExecutionPlan → Option MultiAction
first_action p = first? p.actions

abbrev pub last_action : MultiActionExecutionPlan → Option MultiAction
last_action p = last? p.actions

abbrev pub action_types : MultiActionExecutionPlan → List String
action_types p = map (λ (a : MultiAction). a.action_type) p.actions

abbrev pub dependency_ids : MultiActionExecutionPlan → List String
dependency_ids p =
    sort_by text_leb (dedupe (flatten (map (λ (a : MultiAction). a.dependency_ids) p.actions)))
