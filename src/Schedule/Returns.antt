-- ===== src/Schedule/Returns.antt =====
-- Plans that the scheduling engine admits for sure.
use mathlib.Core.List.{Perm, flatten}
use yoma.Prelude.{
  String, ◌≡◌, refl, true, false, List, [], ◌∷◌, none, some, is_nil, is_empty, is_unique, contains,
  is_nil-contains, contains-perm, is_unique-perm, eq_refl, starts_with-append, concat, Bool-cases,
  inl, inr, sym, ◌∙◌, subst, arith, is_empty-concat,
}
use yoma.Result.{ok}
use yoma.Dict
use yoma.Dict.{Dict}
use yoma.Value.{Mapping, DateTime}
use yoma.MultiAction.Model.{MultiAction, MultiActionExecutionPlan, action_ids}
use yoma.Ordering.Sound.{IsKnot}
use yoma.Ordering.Knots.{Within}
use yoma.Ordering.Model.{ExecutionOrder, same_texts_refl}
use yoma.Ordering.Engine as Ordering
use yoma.Ordering.Engine.{
  order, order_id, action_lookup, dependencies_of, missing_of, levelled_order,
}
use yoma.Ordering.Decides.{duplicate, blocked, levelled, knotted, order_cases}
use yoma.Ordering.Unique.{keys-lookup}
use yoma.Rollback.Model.{
  TransactionIntelligence, boundary_post_init, plan_post_init, transaction_post_init,
}
use yoma.Rollback.Engine.{build, transaction_id, transaction_of, made_transaction}
use yoma.Schedule.Model.{
  ExecutionSchedule, schedule_post_init, ExecutionSchedulingResult, result_post_init,
}
use yoma.Schedule.Engine.{SchedulingEngine, enter, schedule_id, schedule_of, result_of, schedule}
use yoma.Schedule.Admission.{IsTimely, IsAdmitted, schedule_admits}

-- A plan with ids and actions, whose actions have different ids, no missing dependency, and do not
-- wait for one another.
pub record IsSchedulable (p : MultiActionExecutionPlan) : Type 0 where
  pub execution_plan_id : is_empty p.execution_plan_id ≡ false
  pub orchestration_id : is_empty p.orchestration_id ≡ false
  pub decision_id : is_empty p.decision_id ≡ false
  pub inhabited : is_nil p.actions ≡ false
  pub unique : is_unique (action_ids p.actions) ≡ true
  pub known : is_nil (missing_of p.actions) ≡ true
  pub untied :
      (knot : List String)
      → IsKnot (dependencies_of p.actions) knot
      → Within knot (action_ids p.actions)
      → ⊥

-- An engine that has nothing under the ids of a plan, and no schedule of the id.
pub record IsFresh (plan_id id : String) (e : SchedulingEngine) : Type 0 where
  pub order : Dict.get e.dependency_engine.orders (order_id plan_id) ≡ none
  pub transaction : Dict.get e.transactions (transaction_id plan_id) ≡ none
  pub schedule : Dict.get e.schedules id ≡ none

-- The order of a plan with actions is not empty.
ordered_some :
    (actions : List MultiAction) (ids : List String)
    → Perm ids (action_ids actions)
    → is_nil actions ≡ false
    → is_nil ids ≡ false
ordered_some [] ids same h = cc
ordered_some (a ∷ actions) ids same h = elim (Bool-cases (is_nil ids)) [
  | inr full ↦ full
  | inl empty ↦
      let member : contains (a.action_id ∷ action_ids actions) a.action_id ≡ true =
        ground (arith, eq_refl a.action_id) in
      absurd (
        differ
          (sym (is_nil-contains ids a.action_id empty) ∙ contains-perm a.action_id same ∙ member))
]
  where
    differ : false ≡ true → ⊥
    differ e = cc

transaction-made :
    (plan_id : String) (ids : List String)
    → is_empty plan_id ≡ false
    → is_nil ids ≡ false
    → made_transaction plan_id ids ≡ ok (transaction_of plan_id ids)
unfolding made_transaction boundary_post_init plan_post_init transaction_post_init
transaction-made plan_id ids named full = simp (
  named,
  full,
  starts_with-append "TXB-" plan_id,
  starts_with-append "RBPLAN-" plan_id,
  starts_with-append "TX-" plan_id,
  is_empty-concat "TXB-" plan_id refl,
)

module _ (strftime : DateTime → String) (p : MultiActionExecutionPlan) (at created_at : DateTime)
    (metadata : Mapping) where
  -- The order of the levels, and the transaction and the schedule for it.
  abbrev order_with : List (List String) → ExecutionOrder
  order_with levels = levelled_order p.execution_plan_id levels

  abbrev transaction_with : List (List String) → TransactionIntelligence
  transaction_with levels = transaction_of p.execution_plan_id (flatten levels)

  abbrev schedule_with : List (List String) → ExecutionSchedule
  schedule_with levels =
      schedule_of (schedule_id strftime p at) p at created_at metadata (order_with levels)
        (transaction_with levels)

  module _ (levels : List (List String)) (h : IsSchedulable p) (t : IsTimely at created_at)
      (same : Perm (flatten levels) (action_ids p.actions)) where
    schedule-accepted : schedule_post_init (schedule_with levels) ≡ ok (schedule_with levels)
    unfolding schedule_post_init levelled_order
    schedule-accepted = simp (
      starts_with-append "SCHED-" (concat p.execution_plan_id (concat "-" (strftime at))),
      h.execution_plan_id,
      h.orchestration_id,
      h.decision_id,
      t.aware,
      is_unique-perm same ∙ h.unique,
      same_texts_refl (flatten levels),
    )

    build-returns :
        (d : Dict TransactionIntelligence)
        → Dict.get d (transaction_id p.execution_plan_id) ≡ none
        → (build p (some (order_with levels)) d).0 ≡ ok (transaction_with levels)
    unfolding build levelled_order
    build-returns d unseen = simp (
      eq_refl p.execution_plan_id,
      unseen,
      transaction-made p.execution_plan_id (flatten levels) h.execution_plan_id
          (ordered_some p.actions (flatten levels) same h.inhabited),
    )

    passes :
        (e : SchedulingEngine) (d : Ordering.Engine)
        → IsFresh p.execution_plan_id (schedule_id strftime p at) e
        → order p e.dependency_engine ≡ (ok (order_with levels), d)
        → (schedule strftime p at created_at metadata e).0
          ≡ ok (result_of (schedule_with levels) (order_with levels) (transaction_with levels))
    unfolding schedule enter result_post_init levelled_order
    passes e d f gives = simp (
      t.aware,
      t.in_order,
      gives,
      build-returns e.transactions f.transaction,
      f.schedule,
      schedule-accepted,
    )

  -- A plan with ids and actions, whose actions have different ids, no missing and no circular
  -- dependencies, is scheduled at every time that is not before its creation, by an engine that
  -- has nothing under its ids: the call returns a schedule whose levels respect the dependencies
  -- and hold each action once.
  pub schedule_returns :
      (e : SchedulingEngine)
      → IsSchedulable p
      → IsTimely at created_at
      → IsFresh p.execution_plan_id (schedule_id strftime p at) e
      → (r : ExecutionSchedulingResult) × ((schedule strftime p at created_at metadata e).0 ≡ ok r)
        × IsAdmitted p r.schedule
  schedule_returns e h t f =
      let ids = keys-lookup p.actions h.unique in
      elim (order_cases p e.dependency_engine h.execution_plan_id f.order) [
        | duplicate twice stops ↦ absurd (differ (sym h.unique ∙ twice))
        | blocked unique some_missing gives ↦ absurd (differ (sym h.known ∙ some_missing))
        | knotted knot unique free stops k within ↦
            absurd (h.untied knot k (subst (Within knot) ids within))
        | levelled levels unique free gives ordered perm no_knot ↦
            let returns = passes levels h t (subst (Perm (flatten levels)) ids perm) e _ f gives in
            (
              _,
              returns,
              (schedule_admits strftime p at created_at metadata e _ h.execution_plan_id f.order
                  f.schedule returns).0,
            )
      ]
    where
      differ : true ≡ false → ⊥
      differ e = cc
