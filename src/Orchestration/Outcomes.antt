-- ===== src/Orchestration/Outcomes.antt =====
-- What becomes of a plan behind the scheduling engine, with a dependency map and without one.
use yoma.Prelude.{
  String, ◌≡◌, refl, true, false, not, none, some, any, is_nil, is_empty-concat, contains, concat,
  arith, ap, ◌∙◌,
}
use yoma.Result.{ok, err, value_error}
use yoma.Dict
use yoma.Dict.{Dict}
use yoma.Value.{Mapping, DateTime}
use yoma.Plan.{ActionPlan, ActionPlanStep, IsPlan}
use yoma.MultiAction.Model.{MultiActionExecutionPlan, action_ids}
use yoma.MultiAction.Engine as Planning
use yoma.MultiAction.Engine.{execution_plan_id}
use yoma.MultiAction.Built.{made_plan, made_unique}
use yoma.Ordering.Engine.{order_id}
use yoma.Schedule.Model.{ExecutionSchedulingResult}
use yoma.Schedule.Engine.{SchedulingEngine, schedule}
use yoma.Schedule.Admission.{IsTimely, IsAdmitted}
use yoma.Schedule.Returns.{IsSchedulable, IsFresh, schedule_returns}
use yoma.Schedule.Blocks.{unknown_dependency_blocks}
use yoma.Orchestration.Model.{DecisionDependencyMap, ControlOrchestration}
use yoma.Orchestration.Dependencies.{analyze}
use yoma.Orchestration.Engine.{build, dependency_lookup, orchestration_id}
use yoma.Orchestration.Built.{IsOrchestrable, made_orchestration}
use yoma.Orchestration.Links.{targets}
use yoma.Orchestration.Pipeline.{engines-make, actions_of}
use yoma.Orchestration.Covers.{AreNamed, IsMapOf, analyze_covers}
use yoma.Orchestration.Unmapped.{missing_of-none, unmapped_untied, is_nil-unmapped}
use yoma.Orchestration.Targets.{target-Foreign, foreign_unknown}

-- The id of the plan of actions that is made of a plan.
abbrev pub actions_id : ActionPlan → String
actions_id plan = execution_plan_id (orchestration_id plan.plan_id)

-- A plan of the constructors, with its ids.
pub record IsSound (plan : ActionPlan) : Type 0 where
  pub is_plan : IsPlan plan
  pub orchestrable : IsOrchestrable plan
  pub users : AreNamed plan.affected_user_ids
  pub systems : AreNamed plan.affected_system_ids

module _ (strftime : DateTime → String) (at created_at : DateTime) (metadata : Mapping) where
  made_blocks :
      (plan : ActionPlan) (m : DecisionDependencyMap) (s : SchedulingEngine)
      → IsMapOf plan m
      → any (λ (step : ActionPlanStep). not (is_nil (targets step))) plan.steps ≡ true
      → IsTimely at created_at
      → Dict.get s.dependency_engine.orders (order_id (actions_id plan)) ≡ none
      → (schedule strftime
          (made_plan (made_orchestration plan (some m)))
          at
          created_at
          metadata
          s).0
        ≡ err (value_error "cannot schedule a plan with blocked actions")
  made_blocks plan m s h targeted t unordered =
      let f =
        target-Foreign plan.plan_id (some m) h.ids 1 plan.steps
          (λ e k. h.entities e ∙ ground (arith, k)) targeted in
      unknown_dependency_blocks strftime (made_plan (made_orchestration plan (some m))) at
        created_at metadata s f.id t
        (is_empty-concat "MAPLAN-" (orchestration_id plan.plan_id) refl) unordered
        (made_unique plan.plan_id 1 (made_orchestration plan (some m)).steps) f.needed
        (ap (contains (action_ids (actions_of plan (some m)))) f.is_dependency
          ∙ foreign_unknown plan.plan_id (dependency_lookup (some m)) 1 plan.steps f.rest)

  -- A plan of the constructors, a step of which has a target: its dependency map is made, its
  -- orchestration with the map, and its plan of actions, by engines that have not seen it; and then
  -- `schedule` always raises, at every time that is not before its creation, since the ids of the
  -- map (DEP-...) are taken for ids of actions (MACT-...) that the plan does not have.
  pub mapped_target_blocks :
      (plan : ActionPlan) (d : Dict ControlOrchestration) (e : Dict MultiActionExecutionPlan)
      (s : SchedulingEngine)
      → IsSound plan
      → any (λ (step : ActionPlanStep). not (is_nil (targets step))) plan.steps ≡ true
      → IsTimely at created_at
      → Dict.get d (orchestration_id plan.plan_id) ≡ none
      → Dict.get e (actions_id plan) ≡ none
      → Dict.get s.dependency_engine.orders (order_id (actions_id plan)) ≡ none
      → (m : DecisionDependencyMap) × (o : ControlOrchestration) × (p : MultiActionExecutionPlan)
        × (analyze plan ≡ ok m)
        × ((build plan (some m) d).0 ≡ ok o)
        × ((Planning.build o e).0 ≡ ok p)
        × ((schedule strftime p at created_at metadata s).0
            ≡ err (value_error "cannot schedule a plan with blocked actions"))
  mapped_target_blocks plan d e s h targeted t new unplanned unordered =
      let (m, analyzed, is_map) = analyze_covers plan h.is_plan h.users h.systems in
      let (built, planned) =
        engines-make plan (some m) d e h.orchestrable is_map.fits new unplanned in
      (
        m,
        made_orchestration plan (some m),
        made_plan (made_orchestration plan (some m)),
        analyzed,
        built,
        planned,
        made_blocks plan m s is_map targeted t unordered,
      )

  unmapped-IsSchedulable :
      (plan : ActionPlan)
      → IsOrchestrable plan
      → is_nil plan.steps ≡ false
      → IsSchedulable (made_plan (made_orchestration plan none))
  unmapped-IsSchedulable plan h busy = record {
    execution_plan_id = is_empty-concat "MAPLAN-" (orchestration_id plan.plan_id) refl;
    orchestration_id = is_empty-concat "ORCH-" plan.plan_id refl;
    decision_id = h.decision_id;
    inhabited = is_nil-unmapped plan.plan_id plan.steps busy;
    unique = made_unique plan.plan_id 1 (made_orchestration plan none).steps;
    known = missing_of-none plan.plan_id 1 plan.steps;
    untied = λ knot k within. unmapped_untied plan.plan_id 1 plan.steps knot k;
  }

  -- A plan with ids, steps, and a type for each step, orchestrated without a dependency map by
  -- engines that have not seen it, is scheduled at every time that is not before its creation: each
  -- call returns, and the schedule respects the dependencies and holds each action once.
  pub unmapped_plan_is_scheduled :
      (plan : ActionPlan) (d : Dict ControlOrchestration) (e : Dict MultiActionExecutionPlan)
      (s : SchedulingEngine)
      → IsOrchestrable plan
      → is_nil plan.steps ≡ false
      → IsTimely at created_at
      → Dict.get d (orchestration_id plan.plan_id) ≡ none
      → Dict.get e (actions_id plan) ≡ none
      → IsFresh
          (actions_id plan)
          (concat "SCHED-" (concat (actions_id plan) (concat "-" (strftime at))))
          s
      → (o : ControlOrchestration) × (p : MultiActionExecutionPlan)
        × (r : ExecutionSchedulingResult) × ((build plan none d).0 ≡ ok o)
        × ((Planning.build o e).0 ≡ ok p)
        × ((schedule strftime p at created_at metadata s).0 ≡ ok r)
        × IsAdmitted p r.schedule
  unmapped_plan_is_scheduled plan d e s h busy t new unplanned fresh =
      let (built, planned) = engines-make plan none d e h tt new unplanned in
      let (r, returns, admitted) =
        schedule_returns strftime (made_plan (made_orchestration plan none)) at created_at metadata
          s (unmapped-IsSchedulable plan h busy) t fresh in
      (
        made_orchestration plan none,
        made_plan (made_orchestration plan none),
        r,
        built,
        planned,
        returns,
        admitted,
      )
