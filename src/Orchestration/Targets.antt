-- ===== src/Orchestration/Targets.antt =====
-- A plan whose map names a target of a step: an action depends on what is no action.
use mathlib.Core.List.{flatten}
use yoma.Prelude.{
  ℕ, suc, String, ◌≡◌, refl, true, false, not, List, [], ◌∷◌, ◌==◌, any, All, Option, is_nil,
  contains, contains-append, concat, eq_refl, eq_iff, Bool-cases, inl, inr, arith, ap, ◌∙◌,
}
use yoma.Dict.{Dict}
use yoma.Plan.{ActionPlanStep}
use yoma.MultiAction.Model.{MultiAction, action_ids}
use yoma.MultiAction.Engine.{action_id, action_of}
use yoma.MultiAction.Built.{made_actions}
use yoma.Ordering.Decides.{all_dependencies}
use yoma.Orchestration.Model.{DecisionDependency, DecisionDependencyMap}
use yoma.Orchestration.Engine.{dependency_lookup, step_of}
use yoma.Orchestration.Built.{made_steps}
use yoma.Orchestration.Links.{links, dependencies_in, targets, contains-dependency_ids}
use yoma.Orchestration.Ids.{IsOwn, dependency_action_differ}

-- Some dependency of the list has the id, is linked to the names, and tells its entity.
record Linked (plan_id : String) (names : List String) (ds : List DecisionDependency) : Type 0 where
  id : String
  rest : String
  is_dependency : id ≡ concat "DEP-" rest
  linked : links names ds id ≡ true

module _ (plan_id : String) (names : List String) where
  linked :
      (e : String) (ds : List DecisionDependency)
      → contains names e ≡ true
      → any (λ (d : DecisionDependency). e == d.entity_id) ds ≡ true
      → All (IsOwn plan_id) ds
      → Linked plan_id names ds
  linked e [] m h own = cc
  linked e (d ∷ ds) m h own = elim (Bool-cases (e == d.entity_id)) [
    | inl same ↦ record {
      id = d.dependency_id;
      rest = own.0.1.0;
      is_dependency = own.0.1.1;
      linked =
          ground (
            arith,
            eq_refl d.dependency_id,
            m,
            ap (contains names) ((eq_iff e d.entity_id).0 same),
          );
    }
    | inr other ↦
        let l = linked e ds m (ground (arith, h, other)) own.1 in
        record {
          id = l.id;
          rest = l.rest;
          is_dependency = l.is_dependency;
          linked = ground (arith, l.linked);
        }
  ]

-- An id that an action depends on and that is a dependency of the map.
pub record Foreign (actions : List MultiAction) : Type 0 where
  pub id : String
  pub rest : String
  pub is_dependency : id ≡ concat "DEP-" rest
  pub needed : contains (all_dependencies actions) id ≡ true

first_name : (names : List String) → is_nil names ≡ false → (e : String) × (contains names e ≡ true)
first_name [] h = cc
first_name (e ∷ names) h = (e, ground (arith, eq_refl e))

-- What is needed by an action, or by one behind it, is needed.
needed_here :
    (a : MultiAction) (actions : List MultiAction) (id : String)
    → contains a.dependency_ids id ≡ true
    → contains (all_dependencies (a ∷ actions)) id ≡ true
unfolding flatten
needed_here a actions id h =
    ground (arith, h, contains-append a.dependency_ids (all_dependencies actions) id)

needed_behind :
    (a : MultiAction) (actions : List MultiAction) (id : String)
    → contains (all_dependencies actions) id ≡ true
    → contains (all_dependencies (a ∷ actions)) id ≡ true
unfolding flatten
needed_behind a actions id h =
    ground (arith, h, contains-append a.dependency_ids (all_dependencies actions) id)

module _ (plan_id : String) (m : Option DecisionDependencyMap)
    (own : All (IsOwn plan_id) (dependencies_in m)) where
  pub target-Foreign :
      (index : ℕ) (steps : List ActionPlanStep)
      → ((e : String)
          → any (λ (s : ActionPlanStep). contains (targets s) e) steps ≡ true
          → any (λ (d : DecisionDependency). e == d.entity_id) (dependencies_in m) ≡ true)
      → any (λ (s : ActionPlanStep). not (is_nil (targets s))) steps ≡ true
      → Foreign (made_actions plan_id index (made_steps plan_id (dependency_lookup m) index steps))
  unfolding made_actions made_steps
  target-Foreign index [] named h = cc
  target-Foreign index (s ∷ steps) named h = elim (Bool-cases (is_nil (targets s))) [
    | inl idle ↦
        let f =
          target-Foreign (suc index) steps (λ e k. named e (ground (arith, k)))
            (ground (arith, h, idle)) in
        record {
          id = f.id;
          rest = f.rest;
          is_dependency = f.is_dependency;
          needed =
              needed_behind
                (action_of plan_id index (step_of plan_id (dependency_lookup m) index s)) _ f.id
                f.needed;
        }
    | inr busy ↦
        let (e, member) = first_name (targets s) busy in
        let l =
          linked plan_id (targets s) e (dependencies_in m) member (named e (ground (arith, member)))
            own in
        record {
          id = l.id;
          rest = l.rest;
          is_dependency = l.is_dependency;
          needed =
              needed_here (action_of plan_id index (step_of plan_id (dependency_lookup m) index s))
                _ l.id (contains-dependency_ids m s l.id ∙ l.linked);
        }
  ]

-- Such an id is no action's.
pub foreign_unknown :
    (plan_id : String) (lookup : Dict (List String)) (index : ℕ) (steps : List ActionPlanStep)
    (rest : String)
    → contains
        (action_ids (made_actions plan_id index (made_steps plan_id lookup index steps)))
        (concat "DEP-" rest)
      ≡ false
unfolding made_actions made_steps
foreign_unknown plan_id lookup index [] rest = refl
foreign_unknown plan_id lookup index (s ∷ steps) rest =
    elim (Bool-cases (concat "DEP-" rest == action_id plan_id index)) [
      | inl same ↦ absurd (dependency_action_differ rest _ ((eq_iff _ _).0 same))
      | inr other ↦ ground (arith, other, foreign_unknown plan_id lookup (suc index) steps rest)
    ]
