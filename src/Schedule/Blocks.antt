-- ===== src/Schedule/Blocks.antt =====
-- A plan that the scheduling engine refuses: a dependency that is no action of it.
use mathlib.Core.List.{flatten}
use yoma.Prelude.{
  String, ◌≡◌, refl, true, false, List, [], ◌∷◌, none, is_nil, is_empty, is_unique, contains, ap,
  sym, ◌∙◌, text_leb,
}
use yoma.Result.{ok, err, value_error}
use yoma.Dict
use yoma.Sorted.{is_nil-sort_by}
use yoma.Value.{Mapping, DateTime}
use yoma.MultiAction.Model.{MultiAction, MultiActionExecutionPlan, action_ids}
use yoma.Ordering.Model.{ExecutionOrder}
use yoma.Ordering.Engine as Ordering
use yoma.Ordering.Engine.{order, order_id, action_lookup, missing_of, blocked_order}
use yoma.Ordering.Decides.{
  duplicate, blocked, levelled, knotted, order_cases, all_dependencies, missing_of-Known,
}
use yoma.Ordering.Unique.{keys-lookup}
use yoma.Schedule.Engine.{SchedulingEngine, schedule}
use yoma.Schedule.Admission.{IsTimely}

-- Only actions have dependencies.
actions_some :
    (actions : List MultiAction) (d : String)
    → contains (all_dependencies actions) d ≡ true
    → is_nil (action_ids actions) ≡ false
unfolding flatten
actions_some [] d h = cc
actions_some (a ∷ actions) d h = refl

module _ (strftime : DateTime → String) (p : MultiActionExecutionPlan) (at created_at : DateTime)
    (metadata : Mapping) where
  blocked_stops :
      (e : SchedulingEngine) (o : ExecutionOrder) (d : Ordering.Engine)
      → IsTimely at created_at
      → order p e.dependency_engine ≡ (ok o, d)
      → is_nil o.blocked_action_ids ≡ false
      → (schedule strftime p at created_at metadata e).0
        ≡ err (value_error "cannot schedule a plan with blocked actions")
  unfolding schedule
  blocked_stops e o d t gives stopped = simp (t.aware, t.in_order, gives, stopped)

  pub unknown_dependency_blocks :
      (e : SchedulingEngine) (d : String)
      → IsTimely at created_at
      → is_empty p.execution_plan_id ≡ false
      → Dict.get e.dependency_engine.orders (order_id p.execution_plan_id) ≡ none
      → is_unique (action_ids p.actions) ≡ true
      → contains (all_dependencies p.actions) d ≡ true
      → contains (action_ids p.actions) d ≡ false
      → (schedule strftime p at created_at metadata e).0
        ≡ err (value_error "cannot schedule a plan with blocked actions")
  unfolding blocked_order
  unknown_dependency_blocks e d t named unordered unique needed unknown =
      let ids = keys-lookup p.actions unique in
      let clash : is_nil (missing_of p.actions) ≡ true → false ≡ true = λ free.
        sym unknown
        ∙ ap (λ ks. contains ks d) (sym ids)
        ∙ missing_of-Known p.actions d free needed in
      elim (order_cases p e.dependency_engine named unordered) [
        | duplicate twice stops ↦ absurd (differ (sym twice ∙ unique))
        | blocked once some_missing gives ↦
            blocked_stops e _ _ t gives
              (is_nil-sort_by text_leb (action_ids p.actions) ∙ actions_some p.actions d needed)
        | levelled levels once free gives ordered perm no_knot ↦ absurd (differ (clash free))
        | knotted knot once free stops k within ↦ absurd (differ (clash free))
      ]
    where
      differ : false ≡ true → ⊥
      differ e = cc
