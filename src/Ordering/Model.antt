-- ===== src/Ordering/Model.antt =====
-- `ExecutionOrder` and `DependencyExecutionAnalysis`, with the checks of their constructors.
use mathlib.Core.List.{flatten}
use yoma.Prelude.{
  ℕ, String, Bool, ◌≡◌, refl, true, false, List, [], ◌∷◌, ◌==◌, ◌&&◌, ◌||◌, not, is_nil, is_empty,
  starts_with, arith, eq_refl,
}
use yoma.Result.{Result, ok, value_error, raise_if, raise_unless, ◌>>◌}

pub record ExecutionOrder : Type 0 where
  pub order_id : String
  pub execution_plan_id : String
  pub ordered_action_ids : List String
  pub dependency_levels : List (List String)
  pub blocked_action_ids : List String
  pub missing_dependency_ids : List String
  pub requires_human_approval : Bool
  pub executable : Bool

-- Equality of tuples of texts.
abbrev pub same_texts : List String → List String → Bool
same_texts [] [] = true
same_texts [] (y ∷ ys) = false
same_texts (x ∷ xs) [] = false
same_texts (x ∷ xs) (y ∷ ys) = x == y && same_texts xs ys

pub same_texts_refl : (xs : List String) → same_texts xs xs ≡ true
same_texts_refl [] = refl
same_texts_refl (x ∷ xs) = ground (arith, eq_refl x, same_texts_refl xs)

unfoldable pub order_post_init : ExecutionOrder → Result ExecutionOrder
order_post_init o = do
  raise_unless (starts_with o.order_id "ORDER-") (value_error "order_id must start with ORDER-")
  raise_if (is_empty o.execution_plan_id) (value_error "execution_plan_id is required")
  raise_unless o.requires_human_approval (value_error "execution ordering requires human approval")
  raise_if o.executable (value_error "execution ordering is not executable")
  raise_unless (same_texts (flatten o.dependency_levels) o.ordered_action_ids)
      (value_error "dependency levels must match ordered_action_ids")
  ok o

pub record DependencyExecutionAnalysis : Type 0 where
  pub analysis_id : String
  pub execution_plan_id : String
  pub ready_action_ids : List String
  pub blocked_action_ids : List String
  pub missing_dependency_ids : List String
  pub circular_dependency : Bool
  pub dependency_count : ℕ
  pub requires_human_approval : Bool
  pub executable : Bool

unfoldable pub analysis_post_init : DependencyExecutionAnalysis → Result DependencyExecutionAnalysis
analysis_post_init a = do
  raise_unless (starts_with a.analysis_id "DEPAN-")
      (value_error "analysis_id must start with DEPAN-")
  raise_if (is_empty a.execution_plan_id) (value_error "execution_plan_id is required")
  raise_unless a.requires_human_approval (value_error "dependency analysis requires human approval")
  raise_if a.executable (value_error "dependency analysis is not executable")
  ok a

abbrev pub requires_review : DependencyExecutionAnalysis → Bool
requires_review a =
    not (is_nil a.blocked_action_ids)
    || not (is_nil a.missing_dependency_ids)
    || a.circular_dependency
