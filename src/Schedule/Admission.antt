-- ===== src/Schedule/Admission.antt =====
-- Which plans the scheduling engine admits.
use mathlib.Core.List.{Perm, flatten}
use yoma.Prelude.{
  String, ◌≡◌, ◌⊎◌, inl, inr, refl, true, false, not, List, is_unique, [], none, some, ◌||◌, is_nil,
  is_empty, Bool-cases, ap, sym, ◌∙◌, subst,
}
use yoma.Result.{Error, Result, ok, err, value_error, Result-cases}
use yoma.Dict
use yoma.Value.{Mapping, DateTime, earlier}
use yoma.MultiAction.Model.{MultiActionExecutionPlan, action_ids}
use yoma.Ordering.Sound.{IsLevelled, IsKnot}
use yoma.Ordering.Knots.{Within}
use yoma.Ordering.Model.{ExecutionOrder}
use yoma.Ordering.Engine as Ordering
use yoma.Ordering.Engine.{
  order, order_id, action_lookup, dependencies_of, missing_of, levelled_order, blocked_order,
}
use yoma.Ordering.Decides.{duplicate, blocked, levelled, knotted, order_cases}
use yoma.Rollback.Model.{TransactionIntelligence}
use yoma.Rollback.Engine.{build}
use yoma.Schedule.Model.{
  ExecutionSchedule, schedule_post_init, ExecutionSchedulingResult, result_post_init,
}
use yoma.Schedule.Steps.{post_init_same}
use yoma.Schedule.Engine.{SchedulingEngine, enter, schedule_id, schedule_of, result_of, schedule}

-- The two checks of the times.
pub record IsTimely (at created_at : DateTime) : Type 0 where
  pub aware : (not at.aware || not created_at.aware) ≡ false
  pub in_order : earlier at created_at ≡ false

-- A schedule that respects the dependencies of its plan, with each action once; the ids of the plan
-- are different, and no actions wait for one another.
pub record IsAdmitted (p : MultiActionExecutionPlan) (s : ExecutionSchedule) : Type 0 where
  pub unique : is_unique (action_ids p.actions) ≡ true
  pub no_knot :
      (knot : List String)
      → IsKnot (dependencies_of p.actions) knot
      → Within knot (Dict.keys (action_lookup p.actions))
      → ⊥
  pub levelled : IsLevelled (dependencies_of p.actions) [] s.dependency_levels
  pub complete : Perm (flatten s.dependency_levels) (Dict.keys (action_lookup p.actions))
  pub in_order : earlier s.scheduled_at s.created_at ≡ false

err_ok {ℓ} : {A : Type ℓ} {x : Error} {a : A} → err x ≡ ok a → ⊥
err_ok h = cc

ok_inj : {a b : ExecutionSchedulingResult} → ok a ≡ ok b → a ≡ b
ok_inj h = cc

module _ (strftime : DateTime → String) (p : MultiActionExecutionPlan) (at created_at : DateTime)
    (metadata : Mapping) where
  abbrev run : SchedulingEngine → Result ExecutionSchedulingResult × SchedulingEngine
  run e = schedule strftime p at created_at metadata e

  timely :
      (e : SchedulingEngine) {r : ExecutionSchedulingResult}
      → (run e).0 ≡ ok r
      → IsTimely at created_at
  unfolding schedule
  timely e h = elim (Bool-cases (not at.aware || not created_at.aware)) [
    | inl naive ↦ absurd (err_ok (sym (naive_stops naive) ∙ h))
    | inr aware ↦ elim (Bool-cases (earlier at created_at)) [
      | inl early ↦ absurd (err_ok (sym (early_stops aware early) ∙ h))
      | inr later ↦ record { aware = aware; in_order = later }
    ]
  ]
    where
      naive_stops :
          (not at.aware || not created_at.aware) ≡ true
          → (run e).0 ≡ err (value_error "scheduled_at and created_at must be timezone-aware")
      naive_stops naive = simp naive

      early_stops :
          (not at.aware || not created_at.aware) ≡ false
          → earlier at created_at ≡ true
          → (run e).0 ≡ err (value_error "scheduled_at cannot be earlier than created_at")
      early_stops aware early = simp (aware, early)

  order_stops :
      (e : SchedulingEngine) (x : Error) (d : Ordering.Engine)
      → IsTimely at created_at
      → order p e.dependency_engine ≡ (err x, d)
      → (run e).0 ≡ err x
  unfolding schedule
  order_stops e x d t h = simp (t.aware, t.in_order, h)

  missing_stops :
      (e : SchedulingEngine) (o : ExecutionOrder) (d : Ordering.Engine)
      → IsTimely at created_at
      → order p e.dependency_engine ≡ (ok o, d)
      → is_nil o.missing_dependency_ids ≡ false
      → (x : Error) × ((run e).0 ≡ err x)
  unfolding schedule
  missing_stops e o d t h m = elim (Bool-cases (is_nil o.blocked_action_ids)) [
    | inl free ↦ (
      value_error "cannot schedule a plan with missing dependencies",
      simp (t.aware, t.in_order, h, free, m),
    )
    | inr stopped ↦ (
      value_error "cannot schedule a plan with blocked actions",
      simp (t.aware, t.in_order, h, stopped),
    )
  ]

  -- The schedule that is entered for an order.
  abbrev new_schedule : ExecutionOrder → TransactionIntelligence → ExecutionSchedule
  new_schedule o t = schedule_of (schedule_id strftime p at) p at created_at metadata o t

  enters :
      (e : SchedulingEngine) (o : ExecutionOrder) (d : Ordering.Engine)
      → IsTimely at created_at
      → order p e.dependency_engine ≡ (ok o, d)
      → is_nil o.blocked_action_ids ≡ true
      → is_nil o.missing_dependency_ids ≡ true
      → Dict.get e.schedules (schedule_id strftime p at) ≡ none
      → ((x : Error) × ((run e).0 ≡ err x))
        ⊎ ((t : TransactionIntelligence) × ((run e).0 ≡ ok (result_of (new_schedule o t) o t)))
  unfolding schedule enter result_post_init
  enters e o d t h free found new = elim (Result-cases (build p (some o) e.transactions).0) [
    | inl (x, stops) ↦ inl (x, simp (t.aware, t.in_order, h, free, found, stops))
    | inr (tx, built) ↦ elim (Result-cases (schedule_post_init (new_schedule o tx))) [
      | inl (x, stops) ↦ inl (x, simp (t.aware, t.in_order, h, free, found, built, new, stops))
      | inr (s, accepted) ↦ inr (
        tx,
        simp (t.aware, t.in_order, h, free, found, built, new, accepted)
            (ap (λ u. ok (result_of u o tx)) (sym (post_init_same (new_schedule o tx) accepted))),
      )
    ]
  ]

  -- For a plan with an id that the engine has not ordered, and a time at which it has no schedule of
  -- it: if `schedule` returns, the ids of the plan's actions are different, no dependency is missing,
  -- no actions wait for one another, and the schedule's levels respect the dependencies and hold each
  -- action once, at a time that is not before its creation.
  pub schedule_admits :
      (e : SchedulingEngine) (r : ExecutionSchedulingResult)
      → is_empty p.execution_plan_id ≡ false
      → Dict.get e.dependency_engine.orders (order_id p.execution_plan_id) ≡ none
      → Dict.get e.schedules (schedule_id strftime p at) ≡ none
      → (run e).0 ≡ ok r
      → IsAdmitted p r.schedule × (is_nil (missing_of p.actions) ≡ true)
  unfolding blocked_order levelled_order
  schedule_admits e r named unordered new h =
      let t = timely e h in
      elim (order_cases p e.dependency_engine named unordered) [
        | duplicate twice stops ↦ absurd (err_ok (sym (order_stops e _ _ t stops) ∙ h))
        | knotted knot unique free stops k within ↦
            absurd (err_ok (sym (order_stops e _ _ t stops) ∙ h))
        | blocked unique some_missing gives ↦
            let (x, stops) = missing_stops e _ _ t gives some_missing in
            absurd (err_ok (sym stops ∙ h))
        | levelled levels unique free gives ordered perm no_knot ↦
            elim (enters e (levelled_order p.execution_plan_id levels) _ t gives refl refl new) [
              | inl (x, stops) ↦ absurd (err_ok (sym stops ∙ h))
              | inr (tx, returns) ↦ (
                subst (IsAdmitted p)
                    (ap (λ (q : ExecutionSchedulingResult). q.schedule) (ok_inj (sym returns ∙ h)))
                    (record {
                      unique = unique;
                      no_knot = no_knot;
                      levelled = ordered;
                      complete = perm;
                      in_order = t.in_order;
                    }),
                free,
              )
            ]
      ]
