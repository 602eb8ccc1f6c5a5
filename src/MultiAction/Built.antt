-- ===== src/MultiAction/Built.antt =====
-- Which plan `MultiActionExecutionPlanEngine.build` makes of an orchestration that it has not seen.
use yoma.Prelude.{
  ℕ, suc, ◌≤◌, ◌<◌, String, ◌≡◌, refl, true, false, List, [], ◌∷◌, none, eqb, any, All, is_empty,
  is_unique, contains, starts_with-append, concat, decimal, ◌==◌, eq_iff, decimal-injective,
  concat-cancel, is_empty-concat, arith, Bool-cases, inl, inr, ap,
}
use yoma.Result.{ok}
use yoma.Dict
use yoma.Dict.{Dict}
use yoma.Orchestration.Model.{OrchestrationStep, ControlOrchestration}
use yoma.MultiAction.Model.{
  MultiAction, action_post_init, MultiActionExecutionPlan, plan_post_init, check_actions,
  action_ids, sequences, is_ascending, is_unique_numbers,
}
use yoma.MultiAction.Engine.{
  action_id, action_of, actions_from, execution_plan_id, plan_of, build_new, build,
}

-- The numbers of `range(first, first + count)`.
abbrev pub numbers_from {ℓ} : {A : Type ℓ} → ℕ → List A → List ℕ
numbers_from first [] = []
numbers_from first (x ∷ xs) = first ∷ numbers_from (suc first) xs

pub numbers_from_ascending {ℓ} :
    {A : Type ℓ} (first : ℕ) (xs : List A) → is_ascending (numbers_from first xs) ≡ true
numbers_from_ascending first [] = refl
numbers_from_ascending first (x ∷ []) = refl
numbers_from_ascending first (x ∷ y ∷ ys) =
    ground (arith, numbers_from_ascending (suc first) (y ∷ ys))

above {ℓ} :
    {A : Type ℓ} (k first : ℕ) (xs : List A)
    → k < first
    → any (eqb k) (numbers_from first xs) ≡ false
above k first [] h = refl
above k first (x ∷ xs) h = ground (arith, h, above k (suc first) xs (omega (arith, h)))

pub numbers_from_unique {ℓ} :
    {A : Type ℓ} (first : ℕ) (xs : List A) → is_unique_numbers (numbers_from first xs) ≡ true
numbers_from_unique first [] = refl
numbers_from_unique first (x ∷ xs) =
    ground (arith, above first (suc first) xs (omega arith), numbers_from_unique (suc first) xs)

-- Steps that a constructor accepted have types.
abbrev pub IsTyped : OrchestrationStep → Type 0
IsTyped s = is_empty s.action_type ≡ false

unfoldable pub made_actions : String → ℕ → List OrchestrationStep → List MultiAction
made_actions plan_id index [] = []
made_actions plan_id index (s ∷ steps) =
    action_of plan_id index s ∷ made_actions plan_id (suc index) steps

module _ (plan_id : String) where
  actions_from-ok :
      (index : ℕ) (steps : List OrchestrationStep)
      → 1 ≤ index
      → All IsTyped steps
      → actions_from plan_id index steps ≡ ok (made_actions plan_id index steps)
  unfolding actions_from made_actions action_post_init
  actions_from-ok index [] h t = refl
  actions_from-ok index (s ∷ steps) h t = ground (
    arith,
    h,
    t.0,
    is_empty-concat "MACT-" (concat plan_id (concat "-" (decimal index))) refl,
    starts_with-append "MACT-" (concat plan_id (concat "-" (decimal index))),
    actions_from-ok (suc index) steps (omega (arith, h)) t.1,
  )

  made-sequences :
      (index : ℕ) (steps : List OrchestrationStep)
      → sequences (made_actions plan_id index steps) ≡ numbers_from index steps
  unfolding made_actions
  made-sequences index [] = refl
  made-sequences index (s ∷ steps) = ap (λ ks. index ∷ ks) (made-sequences (suc index) steps)

  other_id : (j k : ℕ) → j < k → (action_id plan_id j == action_id plan_id k) ≡ false
  other_id j k h = elim (Bool-cases (action_id plan_id j == action_id plan_id k)) [
    | inr other ↦ other
    | inl same ↦ absurd (
        omega (
          arith,
          h,
          decimal-injective j k (
              concat-cancel "-" _ _
                (concat-cancel plan_id _ _ (concat-cancel "MACT-" _ _ ((eq_iff _ _).0 same)))),
        ))
  ]

  later_ids :
      (j index : ℕ) (steps : List OrchestrationStep)
      → j < index
      → contains (action_ids (made_actions plan_id index steps)) (action_id plan_id j) ≡ false
  unfolding made_actions
  later_ids j index [] h = refl
  later_ids j index (s ∷ steps) h =
      ground (arith, other_id j index h, later_ids j (suc index) steps (omega (arith, h)))

  pub made_unique :
      (index : ℕ) (steps : List OrchestrationStep)
      → is_unique (action_ids (made_actions plan_id index steps)) ≡ true
  unfolding made_actions
  made_unique index [] = refl
  made_unique index (s ∷ steps) =
      ground (arith, later_ids index (suc index) steps (omega arith), made_unique (suc index) steps)

  made_checked :
      (index : ℕ) (steps : List OrchestrationStep)
      → check_actions (made_actions plan_id index steps) ≡ ok tt
  unfolding made_actions check_actions
  made_checked index [] = refl
  made_checked index (s ∷ steps) = made_checked (suc index) steps

-- What `plan_post_init` and the constructors of the actions ask of an orchestration.
pub record IsBuildable (o : ControlOrchestration) : Type 0 where
  pub orchestration_id : is_empty o.orchestration_id ≡ false
  pub plan_id : is_empty o.plan_id ≡ false
  pub decision_id : is_empty o.decision_id ≡ false
  pub typed : All IsTyped o.steps

abbrev pub made_plan : ControlOrchestration → MultiActionExecutionPlan
made_plan o = plan_of o (made_actions o.plan_id 1 o.steps)

plan-accepted :
    (o : ControlOrchestration) → IsBuildable o → plan_post_init (made_plan o) ≡ ok (made_plan o)
unfolding plan_post_init
plan-accepted o h =
    rw
      (
        is_empty-concat "MAPLAN-" o.orchestration_id refl,
        starts_with-append "MAPLAN-" o.orchestration_id,
        h.orchestration_id,
        h.plan_id,
        h.decision_id,
        made-sequences o.plan_id 1 o.steps,
        numbers_from_ascending 1 o.steps,
        numbers_from_unique 1 o.steps,
        made_unique o.plan_id 1 o.steps,
        made_checked o.plan_id 1 o.steps,
      )
      refl

-- The plan of an orchestration that the engine has not seen holds one action for each step.
pub build-made :
    (o : ControlOrchestration) (d : Dict MultiActionExecutionPlan)
    → IsBuildable o
    → Dict.get d (execution_plan_id o.orchestration_id) ≡ none
    → build o d
      ≡ (ok (made_plan o), Dict.put d (execution_plan_id o.orchestration_id) (made_plan o))
unfolding build build_new
build-made o d h unseen =
    rw (unseen, actions_from-ok o.plan_id 1 o.steps (omega arith) h.typed, plan-accepted o h) refl
