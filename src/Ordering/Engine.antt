-- ===== src/Ordering/Engine.antt =====
-- `DependencyAwareExecutionEngine`: `order`, `analyze` and `order_many`.
use mathlib.Core.List.{flatten}
use yoma.Prelude.{
  ℕ, ◌+◌, String, Bool, true, false, not, List, [], ◌∷◌, map, Option, none, some, eqb, concat,
  length, is_nil, keep, dedupe, text_leb, or_default, if◌then◌else◌,
}
use yoma.Result.{value_error, runtime_error}
use yoma.Exec.{Exec, return, raise, lift, modify, ◌>>=◌, ◌>>◌}
use yoma.Sorted.{sort_by}
use yoma.Dict
use yoma.Dict.{Dict}
use yoma.MultiAction.Model.{MultiAction, MultiActionExecutionPlan, action_ids}
use yoma.Ordering.Levels.{Levelling, placed, circular, level_from, drain_from}
use yoma.Ordering.Model.{
  ExecutionOrder, order_post_init, DependencyExecutionAnalysis, analysis_post_init,
}

pub record Engine : Type 0 where
  pub orders : Dict ExecutionOrder
  pub analyses : Dict DependencyExecutionAnalysis

abbrev pub order_id : String → String
order_id plan_id = concat "ORDER-" plan_id

abbrev pub analysis_id : String → String
analysis_id plan_id = concat "DEPAN-" plan_id

-- `{action.action_id: f(action) for action in actions}`, on top of a dictionary.
abbrev pub index {ℓ} : {V : Type ℓ} → (MultiAction → V) → Dict V → List MultiAction → Dict V
index f d [] = d
index f d (a ∷ actions) = index f (Dict.put d a.action_id (f a)) actions

abbrev pub action_lookup : List MultiAction → Dict MultiAction
action_lookup = index (λ a. a) []

abbrev pub dependencies : List MultiAction → Dict (List String)
dependencies = index (λ a. a.dependency_ids) []

abbrev pub dependencies_of : List MultiAction → String → List String
dependencies_of actions id = or_default (Dict.get (dependencies actions) id) []

-- The dependencies of all actions that name no action, sorted and each once.
unfoldable pub missing_of : List MultiAction → List String
missing_of actions = sort_by text_leb (
    dedupe (
      keep (λ id. not (Dict.has (action_lookup actions) id))
        (flatten (map (λ (a : MultiAction). a.dependency_ids) actions))))

unfoldable pub count_of : List MultiAction → ℕ
count_of [] = 0
count_of (a ∷ actions) = length a.dependency_ids + count_of actions

module _ (plan_id : String) where
  unfoldable pub blocked_order : List String → List String → ExecutionOrder
  blocked_order ids missing = record {
    order_id = order_id plan_id;
    execution_plan_id = plan_id;
    ordered_action_ids = [];
    dependency_levels = [];
    blocked_action_ids = sort_by text_leb ids;
    missing_dependency_ids = missing;
    requires_human_approval = true;
    executable = false;
  }

  unfoldable pub levelled_order : List (List String) → ExecutionOrder
  levelled_order levels = record {
    order_id = order_id plan_id;
    execution_plan_id = plan_id;
    ordered_action_ids = flatten levels;
    dependency_levels = levels;
    blocked_action_ids = [];
    missing_dependency_ids = [];
    requires_human_approval = true;
    executable = false;
  }

  -- `ExecutionOrder(...)`, stored and returned.
  unfoldable pub save_order : ExecutionOrder → Exec Engine ExecutionOrder
  save_order o = do
    o' ← lift (order_post_init o)
    modify (λ e. record e { orders = Dict.put e.orders (order_id plan_id) o' })
    return o'

  unfoldable pub save_analysis :
      DependencyExecutionAnalysis → Exec Engine DependencyExecutionAnalysis
  save_analysis a = do
    a' ← lift (analysis_post_init a)
    modify (λ e. record e { analyses = Dict.put e.analyses (analysis_id plan_id) a' })
    return a'

  -- What `order` does behind its loop.
  abbrev pub finish_order : Option Levelling → Exec Engine ExecutionOrder
  finish_order none = raise (runtime_error "out of fuel")
  finish_order (some (circular stuck)) =
      raise (value_error "circular dependency detected in execution plan")
  finish_order (some (placed levels)) = save_order (levelled_order levels)

unfoldable pub order_new : MultiActionExecutionPlan → Exec Engine ExecutionOrder
order_new p =
    let ids = Dict.keys (action_lookup p.actions) in
    let missing = missing_of p.actions in
    if not (eqb (length ids) (length p.actions))
    then raise (value_error "execution plan contains duplicate action IDs")
    else if not (is_nil missing)
    then save_order p.execution_plan_id
        (blocked_order p.execution_plan_id (action_ids p.actions) missing)
    else finish_order p.execution_plan_id
        (level_from (dependencies_of p.actions) (length ids) [] ids)

abbrev pub known_or {ℓ} : {A : Type ℓ} → Option A → Exec Engine A → Exec Engine A
known_or (some a) m = return a
known_or none m = m

unfoldable pub order : MultiActionExecutionPlan → Exec Engine ExecutionOrder
unfolding order_new
order p e = known_or (Dict.get e.orders (order_id p.execution_plan_id)) (order_new p) e

-- The plans in turn; the first exception ends the call, and the orders before it stay stored.
unfoldable pub order_many : List MultiActionExecutionPlan → Exec Engine (List ExecutionOrder)
order_many [] = return []
order_many (p ∷ ps) = do o ← order p; os ← order_many ps; return (o ∷ os)

-- The ids whose set of dependencies is empty.
unfoldable pub ready_of : Dict (List String) → List String
ready_of [] = []
ready_of ((id, ds) ∷ d) = let rest = ready_of d in if is_nil ds then id ∷ rest else rest

unfoldable pub analysis_of :
    MultiActionExecutionPlan
    → List String
    → List String
    → List String
    → Bool
    → DependencyExecutionAnalysis
analysis_of p ready blocked missing is_circular = record {
  analysis_id = analysis_id p.execution_plan_id;
  execution_plan_id = p.execution_plan_id;
  ready_action_ids = ready;
  blocked_action_ids = blocked;
  missing_dependency_ids = missing;
  circular_dependency = is_circular;
  dependency_count = count_of p.actions;
  requires_human_approval = true;
  executable = false;
}

-- What `analyze` does with the ids that its loop leaves.
abbrev pub finish_analysis :
    MultiActionExecutionPlan
    → List String
    → Option (List String)
    → Exec Engine DependencyExecutionAnalysis
finish_analysis p ready none = raise (runtime_error "out of fuel")
finish_analysis p ready (some remaining) =
    save_analysis p.execution_plan_id
      (analysis_of p ready (sort_by text_leb remaining) [] (not (is_nil remaining)))

unfoldable pub analyze_new : MultiActionExecutionPlan → Exec Engine DependencyExecutionAnalysis
analyze_new p =
    let ids = Dict.keys (action_lookup p.actions) in
    let missing = missing_of p.actions in
    if not (is_nil missing)
    then save_analysis p.execution_plan_id
        (analysis_of p [] (sort_by text_leb (action_ids p.actions)) missing false)
    else finish_analysis p (sort_by text_leb (ready_of (dependencies p.actions)))
        (drain_from (dependencies_of p.actions) (length ids) [] ids)

unfoldable pub analyze : MultiActionExecutionPlan → Exec Engine DependencyExecutionAnalysis
unfolding analyze_new
analyze p e = known_or (Dict.get e.analyses (analysis_id p.execution_plan_id)) (analyze_new p) e
