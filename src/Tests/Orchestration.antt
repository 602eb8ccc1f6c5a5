-- ===== src/Tests/Orchestration.antt =====
-- Examples for the way from a plan to a schedule.
use mathlib.Core.List.{flatten}
use yoma.Prelude.{
  String, ◌≡◌, refl, true, false, List, [], ◌∷◌, none, some, any, All-contains, contains,
  Bool-cases, inl, inr, arith, ◌==◌, eq_iff, eq_refl, subst,
}
use yoma.Result.{ok, err, value_error}
use yoma.Dict
use yoma.Plan.{ActionPlan, counts_from}
use yoma.MultiAction.Model.{MultiActionExecutionPlan, action_ids}
use yoma.MultiAction.Engine as Planning
use yoma.Ordering.Sound.{IsKnot}
use yoma.Ordering.Knots.{Within}
use yoma.Ordering.Engine.{dependencies_of, missing_of}
use yoma.Sorted.{sort_by}
use yoma.Schedule.Model.{ExecutionSchedulingResult}
use yoma.Schedule.Engine.{schedule}
use yoma.Schedule.Admission.{IsTimely, IsAdmitted}
use yoma.Schedule.Returns.{IsSchedulable, schedule_returns}
use yoma.Orchestration.Model.{DecisionDependencyMap, ControlOrchestration}
use yoma.Orchestration.Dependencies.{analyze}
use yoma.Orchestration.Engine.{build}
use yoma.Orchestration.Covers.{IsMapOf, analyze_covers}
use yoma.Orchestration.Pipeline.{Follow, plan_becomes_actions}
use yoma.Orchestration.Outcomes.{IsSound, mapped_target_blocks, unmapped_plan_is_scheduled}
use yoma.Tests.Samples.{noon, step}
use yoma.Tests.Samples as Samples
use yoma.Tests.Ordering as Ordering
use yoma.Tests.Scheduling.{morning, noon_text}
use yoma.Tests.Admission.{idle}

-- A plan whose second step restarts the system "s1" for the user "u2".
abbrev plan : ActionPlan
plan = record Samples.plan {
  steps =
      step "STEP-1" 1 "notify"
      ∷ (record (step "STEP-2" 2 "restart") {
        target_user_id = some "u2";
        target_system_id = some "s1";
      })
      ∷ [];
}

plan-IsSound : IsSound plan
unfolding counts_from
plan-IsSound = record {
  is_plan = record { plan_id = refl; decision_id = refl; human = refl; contiguous = refl };
  orchestrable = record { plan_id = refl; decision_id = refl; typed = (refl, (refl, tt)) };
  users = (refl, tt);
  systems = (refl, tt);
}

timely : IsTimely noon morning
timely = record { aware = refl; in_order = refl }

analyze_covers_example : (m : DecisionDependencyMap) × (analyze plan ≡ ok m) × IsMapOf plan m
analyze_covers_example =
    analyze_covers plan plan-IsSound.is_plan plan-IsSound.users plan-IsSound.systems

abbrev sample_map : DecisionDependencyMap
sample_map = record {
  dependency_map_id = "DMAP-APLAN-1";
  plan_id = "APLAN-1";
  decision_id = "DINT-1";
  dependencies =
      record {
        dependency_id = "DEP-APLAN-1-USER-u2";
        dependency_type = "user";
        entity_id = "u2";
        relationship = "affected_user";
        reason = "affected";
        direct = true;
        content = [];
      }
      ∷ [];
  affected_user_ids = "u2" ∷ [];
  affected_system_ids = [];
  dependency_depth = 1;
  requires_human_approval = true;
  metadata = [];
}

plan_becomes_actions_example :
    (o : ControlOrchestration) × (p : MultiActionExecutionPlan) × ((build plan
        (some sample_map)
        []).0
      ≡ ok o)
    × ((Planning.build o []).0 ≡ ok p)
    × Follow (some sample_map) "APLAN-1" 1 plan.steps p.actions
unfolding Dict.get
plan_becomes_actions_example =
    plan_becomes_actions plan (some sample_map) [] [] plan-IsSound.orchestrable (refl, refl) refl
      refl

mapped_target_blocks_example :
    (m : DecisionDependencyMap) × (o : ControlOrchestration) × (p : MultiActionExecutionPlan)
    × (analyze plan ≡ ok m)
    × ((build plan (some m) []).0 ≡ ok o)
    × ((Planning.build o []).0 ≡ ok p)
    × ((schedule noon_text p noon morning [] idle).0
        ≡ err (value_error "cannot schedule a plan with blocked actions"))
unfolding Dict.get
mapped_target_blocks_example =
    mapped_target_blocks noon_text noon morning [] plan [] [] idle plan-IsSound refl timely refl
      refl refl

unmapped_plan_is_scheduled_example :
    (o : ControlOrchestration) × (p : MultiActionExecutionPlan) × (r : ExecutionSchedulingResult)
    × ((build plan none []).0 ≡ ok o)
    × ((Planning.build o []).0 ≡ ok p)
    × ((schedule noon_text p noon morning [] idle).0 ≡ ok r)
    × IsAdmitted p r.schedule
unfolding Dict.get
unmapped_plan_is_scheduled_example =
    unmapped_plan_is_scheduled noon_text noon morning [] plan [] [] idle plan-IsSound.orchestrable
      refl timely refl refl (record { order = refl; transaction = refl; schedule = refl })

-- The plan of Tests/Ordering.antt, where "MACT-B" depends on "MACT-A".
no_knot :
    (knot : List String)
    → IsKnot (dependencies_of Ordering.plan.actions) knot
    → Within knot (action_ids Ordering.plan.actions)
    → ⊥
unfolding Dict.get Dict.put
no_knot [] k within = differ k.inhabited
  where
    differ : true ≡ false → ⊥
    differ e = cc
no_knot (id ∷ ids) k within = elim (Bool-cases (id == "MACT-B")) [
  | inl b ↦ no_a (
      ground (
        arith,
        subst (λ x. any (contains (id ∷ ids)) (dependencies_of Ordering.plan.actions x) ≡ true)
            ((eq_iff id "MACT-B").0 b) k.tied.0,
      ))
  | inr other ↦ no_a (
      ground (
        arith,
        within id (ground (arith, eq_refl id)),
        other,
        eq_iff id "MACT-A",
        eq_iff "MACT-A" id,
      ))
]
  where
    no_a : contains (id ∷ ids) "MACT-A" ≡ true → ⊥
    no_a m = differ (
        All-contains
          (λ x. any (contains (id ∷ ids)) (dependencies_of Ordering.plan.actions x) ≡ true)
          (id ∷ ids) "MACT-A" k.tied m)
      where
        differ : false ≡ true → ⊥
        differ e = cc

plan-IsSchedulable : IsSchedulable Ordering.plan
unfolding missing_of sort_by Dict.get Dict.put flatten
plan-IsSchedulable = record {
  execution_plan_id = refl;
  orchestration_id = refl;
  decision_id = refl;
  inhabited = refl;
  unique = refl;
  known = refl;
  untied = no_knot;
}

schedule_returns_example :
    (r : ExecutionSchedulingResult) × ((schedule noon_text Ordering.plan noon morning [] idle).0
      ≡ ok r)
    × IsAdmitted Ordering.plan r.schedule
unfolding Dict.get
schedule_returns_example =
    schedule_returns noon_text Ordering.plan noon morning [] idle plan-IsSchedulable timely
      (record { order = refl; transaction = refl; schedule = refl })
