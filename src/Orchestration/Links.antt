-- ===== src/Orchestration/Links.antt =====
-- The dependency ids that a step receives: those of the map that name one of its targets.
use yoma.Prelude.{
  String, Bool, ◌≡◌, refl, false, List, [], ◌∷◌, ◌++◌, Option, none, some, ◌==◌, ◌&&◌, ◌||◌, any,
  contains, contains-append, contains-dedupe, dedupe, text_leb, if◌then◌else◌, arith, ap, sym, ◌∙◌,
  Bool-cases, inl, inr, eq_iff,
}
use yoma.Dict
use yoma.Dict.{Dict}
use yoma.Sorted.{contains-sort_by}
use yoma.Plan.{ActionPlanStep}
use yoma.Orchestration.Model.{DecisionDependency, DecisionDependencyMap}
use yoma.Orchestration.Dependencies.{named}
use yoma.Orchestration.Engine.{
  enlist, lookup_from, dependency_lookup, listed, listed_for, dependency_ids_of,
}

-- A dependency of the list has the id, and its entity is among the names.
abbrev pub links : List String → List DecisionDependency → String → Bool
links names ds id =
    any (λ (d : DecisionDependency). id == d.dependency_id && contains names d.entity_id) ds

abbrev pub dependencies_in : Option DecisionDependencyMap → List DecisionDependency
dependencies_in none = []
dependencies_in (some m) = m.dependencies

-- The entities that a step names.
abbrev pub targets : ActionPlanStep → List String
targets s = named s.target_user_id ++ named s.target_system_id

-- `listed` after one more dependency.
listed-enlist :
    (d : Dict (List String)) (x : DecisionDependency) (e : String)
    → listed (enlist d x) e
      ≡ (if x.entity_id == e then listed d x.entity_id ++ x.dependency_id ∷ [] else listed d e)
listed-enlist d x e = elim (Bool-cases (x.entity_id == e)) [
  | inl same ↦ rw (Dict.get-put d x.entity_id _ e, same) refl
  | inr other ↦ rw (Dict.get-put d x.entity_id _ e, other) refl
]

contains-enlist :
    (d : Dict (List String)) (x : DecisionDependency) (e id : String)
    → contains (listed (enlist d x) e) id
      ≡ (contains (listed d e) id || (id == x.dependency_id && x.entity_id == e))
contains-enlist d x e id = elim (Bool-cases (x.entity_id == e)) [
  | inl same ↦
      rw (listed-enlist d x e, same)
        (contains-append (listed d x.entity_id) (x.dependency_id ∷ []) id
          ∙ ap (λ b. b || (id == x.dependency_id || false))
              (ap (λ z. contains (listed d z) id) ((eq_iff x.entity_id e).0 same))
          ∙ ground arith)
  | inr other ↦ rw (listed-enlist d x e, other) (ground arith)
]

contains-lookup_from :
    (d : Dict (List String)) (ds : List DecisionDependency) (e id : String)
    → contains (listed (lookup_from d ds) e) id ≡ (
        contains (listed d e) id
        || any (λ (x : DecisionDependency). id == x.dependency_id && x.entity_id == e) ds)
unfolding lookup_from
contains-lookup_from d [] e id = ground arith
contains-lookup_from d (x ∷ ds) e id =
    contains-lookup_from (enlist d x) ds e id
    ∙ ap (λ b. b || any (λ (x : DecisionDependency). id == x.dependency_id && x.entity_id == e) ds)
        (contains-enlist d x e id)
    ∙ ground arith

contains-lookup :
    (m : Option DecisionDependencyMap) (e id : String)
    → contains (listed (dependency_lookup m) e) id
      ≡ any
          (λ (x : DecisionDependency). id == x.dependency_id && x.entity_id == e)
          (dependencies_in m)
unfolding dependency_lookup Dict.get
contains-lookup none e id = refl
contains-lookup (some m) e id = contains-lookup_from [] m.dependencies e id

links-cons :
    (name : String) (names : List String) (ds : List DecisionDependency) (id : String)
    → links (name ∷ names) ds id ≡ (
        any (λ (x : DecisionDependency). id == x.dependency_id && x.entity_id == name) ds
        || links names ds id)
links-cons name names [] id = refl
links-cons name names (d ∷ ds) id = ground (arith, links-cons name names ds id)

links-nil : (ds : List DecisionDependency) (id : String) → links [] ds id ≡ false
links-nil [] id = refl
links-nil (d ∷ ds) id = ground (arith, links-nil ds id)

contains-listed_for :
    (m : Option DecisionDependencyMap) (names : List String) (id : String)
    → contains (listed_for (dependency_lookup m) names) id ≡ links names (dependencies_in m) id
contains-listed_for m [] id = sym (links-nil (dependencies_in m) id)
contains-listed_for m (name ∷ names) id =
    contains-append (listed (dependency_lookup m) name) (listed_for (dependency_lookup m) names) id
    ∙ ground (
      arith,
      contains-lookup m name id,
      contains-listed_for m names id,
      links-cons name names (dependencies_in m) id,
    )

-- A step depends on an id exactly if the map has it for one of the step's targets.
pub contains-dependency_ids :
    (m : Option DecisionDependencyMap) (s : ActionPlanStep) (id : String)
    → contains (dependency_ids_of (dependency_lookup m) s) id
      ≡ links (targets s) (dependencies_in m) id
unfolding dependency_ids_of
contains-dependency_ids m s id =
    contains-sort_by text_leb (dedupe (listed_for (dependency_lookup m) (targets s))) id
    ∙ contains-dedupe (listed_for (dependency_lookup m) (targets s)) id
    ∙ contains-listed_for m (targets s) id
