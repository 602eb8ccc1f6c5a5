-- ===== src/Orchestration/Unmapped.antt =====
-- Without a dependency map, no action depends on anything.
use mathlib.Core.List.{flatten}
use yoma.Prelude.{
  ℕ, suc, String, ◌≡◌, refl, true, false, not, List, [], ◌∷◌, ◌++◌, none, is_nil, contains,
  any-contains, ap, sym, ◌∙◌, dedupe, keep, text_leb, ap₂,
}
use yoma.Dict
use yoma.Dict.{Dict}
use yoma.Sorted.{sort_by}
use yoma.Plan.{ActionPlanStep}
use yoma.MultiAction.Model.{MultiAction}
use yoma.MultiAction.Built.{made_actions}
use yoma.Ordering.Sound.{IsKnot}
use yoma.Ordering.Engine.{missing_of, dependencies_of, action_lookup}
use yoma.Ordering.Decides.{all_dependencies, dependencies_of-Within}
use yoma.Orchestration.Dependencies.{named}
use yoma.Orchestration.Engine.{dependency_lookup, dependency_ids_of, listed_for}
use yoma.Orchestration.Built.{made_steps}

listed_for-none : (names : List String) → listed_for (dependency_lookup none) names ≡ []
unfolding dependency_lookup Dict.get
listed_for-none [] = refl
listed_for-none (name ∷ names) = listed_for-none names

dependency_ids-none : (s : ActionPlanStep) → dependency_ids_of (dependency_lookup none) s ≡ []
unfolding dependency_ids_of sort_by
dependency_ids-none s =
    ap (λ ids. sort_by text_leb (dedupe ids))
      (listed_for-none (named s.target_user_id ++ named s.target_system_id))

module _ (plan_id : String) where
  abbrev unmapped : ℕ → List ActionPlanStep → List MultiAction
  unmapped index steps =
      made_actions plan_id index (made_steps plan_id (dependency_lookup none) index steps)

  dependencies-none :
      (index : ℕ) (steps : List ActionPlanStep) → all_dependencies (unmapped index steps) ≡ []
  unfolding made_actions made_steps flatten
  dependencies-none index [] = refl
  dependencies-none index (s ∷ steps) =
      ap₂ (λ ids rest. ids ++ rest) (dependency_ids-none s) (dependencies-none (suc index) steps)

  pub is_nil-unmapped :
      (steps : List ActionPlanStep) → is_nil steps ≡ false → is_nil (unmapped 1 steps) ≡ false
  unfolding made_actions made_steps
  is_nil-unmapped [] h = h
  is_nil-unmapped (s ∷ steps) h = refl

  pub missing_of-none :
      (index : ℕ) (steps : List ActionPlanStep) → is_nil (missing_of (unmapped index steps)) ≡ true
  unfolding missing_of sort_by
  missing_of-none index steps =
      ap
        (λ ids. is_nil (
          sort_by text_leb
            (dedupe (keep (λ id. not (Dict.has (action_lookup (unmapped index steps)) id)) ids))))
        (dependencies-none index steps)

  -- Nothing waits.
  pub unmapped_untied :
      (index : ℕ) (steps : List ActionPlanStep) (knot : List String)
      → IsKnot (dependencies_of (unmapped index steps)) knot
      → ⊥
  unmapped_untied index steps [] k = differ k.inhabited
    where
      differ : true ≡ false → ⊥
      differ e = cc
  unmapped_untied index steps (id ∷ ids) k =
      let (d, member, rest) =
        any-contains (contains (id ∷ ids)) (dependencies_of (unmapped index steps) id) k.tied.0 in
      differ (
        ap (λ xs. contains xs d) (sym (dependencies-none index steps))
        ∙ dependencies_of-Within (unmapped index steps) id d member)
    where
      differ : false ≡ true → ⊥
      differ e = cc
