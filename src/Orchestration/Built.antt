-- ===== src/Orchestration/Built.antt =====
-- Which orchestration `ControlOrchestrationEngine.build` makes of a plan that it has not seen.
use yoma.Prelude.{
  ℕ, suc, ◌≤◌, String, ◌≡◌, refl, false, List, [], ◌∷◌, Option, none, some, All, is_empty,
  starts_with-append, concat, decimal, is_empty-concat, eq_refl, arith, ap,
}
use yoma.Result.{ok}
use yoma.Dict
use yoma.Dict.{Dict}
use yoma.Plan.{ActionPlan, ActionPlanStep}
use yoma.MultiAction.Built.{numbers_from, numbers_from_ascending, numbers_from_unique}
use yoma.Orchestration.Model.{
  DecisionDependencyMap, OrchestrationStep, step_post_init, ControlOrchestration,
  orchestration_post_init, step_sequences, check_steps,
}
use yoma.Orchestration.Engine.{
  step_of, steps_from, dependency_lookup, orchestration_id, orchestration_of, check_map, build_new,
  build,
}

-- What the constructors ask of a plan: ids, and a type for each step.
pub record IsOrchestrable (plan : ActionPlan) : Type 0 where
  pub plan_id : is_empty plan.plan_id ≡ false
  pub decision_id : is_empty plan.decision_id ≡ false
  pub typed : All (λ (s : ActionPlanStep). is_empty s.action_type ≡ false) plan.steps

-- A map that belongs to the plan, or none.
abbrev pub Fits : ActionPlan → Option DecisionDependencyMap → Type 0
Fits plan none = Unit
Fits plan (some m) = (m.plan_id ≡ plan.plan_id) × (m.decision_id ≡ plan.decision_id)

module _ (plan_id : String) (lookup : Dict (List String)) where
  unfoldable pub made_steps : ℕ → List ActionPlanStep → List OrchestrationStep
  made_steps index [] = []
  made_steps index (s ∷ steps) = step_of plan_id lookup index s ∷ made_steps (suc index) steps

  steps_from-ok :
      (index : ℕ) (steps : List ActionPlanStep)
      → is_empty plan_id ≡ false
      → 1 ≤ index
      → All (λ (s : ActionPlanStep). is_empty s.action_type ≡ false) steps
      → steps_from plan_id lookup index steps ≡ ok (made_steps index steps)
  unfolding steps_from made_steps step_post_init
  steps_from-ok index [] n h t = refl
  steps_from-ok index (s ∷ steps) n h t = ground (
    arith,
    n,
    h,
    t.0,
    is_empty-concat "OSTEP-" (concat plan_id (concat "-" (decimal index))) refl,
    starts_with-append "OSTEP-" (concat plan_id (concat "-" (decimal index))),
    steps_from-ok (suc index) steps n (omega (arith, h)) t.1,
  )

  made-sequences :
      (index : ℕ) (steps : List ActionPlanStep)
      → step_sequences (made_steps index steps) ≡ numbers_from index steps
  unfolding made_steps
  made-sequences index [] = refl
  made-sequences index (s ∷ steps) = ap (λ ks. index ∷ ks) (made-sequences (suc index) steps)

  made_checked :
      (index : ℕ) (steps : List ActionPlanStep)
      → check_steps plan_id (made_steps index steps) ≡ ok tt
  unfolding made_steps check_steps
  made_checked index [] = refl
  made_checked index (s ∷ steps) = rw (eq_refl plan_id) (made_checked (suc index) steps)

abbrev pub made_orchestration : ActionPlan → Option DecisionDependencyMap → ControlOrchestration
made_orchestration plan m =
    orchestration_of plan m (made_steps plan.plan_id (dependency_lookup m) 1 plan.steps)

orchestration-accepted :
    (plan : ActionPlan) (m : Option DecisionDependencyMap)
    → IsOrchestrable plan
    → orchestration_post_init (made_orchestration plan m) ≡ ok (made_orchestration plan m)
unfolding orchestration_post_init
orchestration-accepted plan m h =
    rw
      (
        is_empty-concat "ORCH-" plan.plan_id refl,
        starts_with-append "ORCH-" plan.plan_id,
        h.plan_id,
        h.decision_id,
        made-sequences plan.plan_id (dependency_lookup m) 1 plan.steps,
        numbers_from_ascending 1 plan.steps,
        numbers_from_unique 1 plan.steps,
        made_checked plan.plan_id (dependency_lookup m) 1 plan.steps,
      )
      refl

check_map-Fits :
    (plan : ActionPlan) (m : Option DecisionDependencyMap) → Fits plan m → check_map plan m ≡ ok tt
unfolding check_map
check_map-Fits plan none h = refl
check_map-Fits plan (some m) h = rw (h.0, h.1, eq_refl plan.plan_id, eq_refl plan.decision_id) refl

-- The orchestration of a plan that the engine has not seen holds one step for each of the plan's.
pub build-made :
    (plan : ActionPlan) (m : Option DecisionDependencyMap) (d : Dict ControlOrchestration)
    → IsOrchestrable plan
    → Fits plan m
    → Dict.get d (orchestration_id plan.plan_id) ≡ none
    → build plan m d ≡ (
      ok (made_orchestration plan m),
      Dict.put d (orchestration_id plan.plan_id) (made_orchestration plan m),
    )
unfolding build build_new
build-made plan m d h fits unseen =
    rw
      (
        check_map-Fits plan m fits,
        unseen,
        steps_from-ok plan.plan_id (dependency_lookup m) 1 plan.steps h.plan_id (omega arith)
            h.typed,
        orchestration-accepted plan m h,
      )
      refl
