-- ===== src/Orchestration/Covers.antt =====
-- The dependency map of a plan names each of the plan's entities, and no other.
use yoma.Prelude.{
  String, Bool, ◌≡◌, refl, false, List, [], ◌∷◌, ◌++◌, map, Option, none, some, ◌==◌, ◌||◌, any,
  All, All-append, contains, contains-append, is_empty, starts_with-append, concat, arith, ap, ◌∙◌,
  Bool-cases, inl, inr,
}
use yoma.Result.{ok}
use yoma.Plan.{ActionPlan, ActionPlanStep, IsPlan}
use yoma.Orchestration.Model.{
  DecisionDependency, dependency_post_init, DecisionDependencyMap, map_post_init,
}
use yoma.Orchestration.Dependencies.{
  named, affected_user, affected_system, target_user, target_system, append_each, append_targets,
  ordered_of, map_of, analyze,
}
use yoma.Orchestration.Built.{Fits}
use yoma.Orchestration.Ids.{
  IsOwn, affected_user-IsOwn, affected_system-IsOwn, target_user-IsOwn, target_system-IsOwn,
}
use yoma.Orchestration.Ordered.{any-append, any-ordered, ordered-IsOwn}
use yoma.Orchestration.Links.{targets}

-- Ids that are not empty.
abbrev pub AreNamed : List String → Type 0
AreNamed ids = All (λ id. is_empty id ≡ false) ids

named-AreNamed : (o : Option String) → AreNamed (named o)
named-AreNamed none = tt
named-AreNamed (some id) = elim (Bool-cases (is_empty id)) [
  | inl empty ↦ rw empty tt
  | inr full ↦ rw full (full, tt)
]

abbrev names : String → List DecisionDependency → Bool
names e ds = any (λ (d : DecisionDependency). e == d.entity_id) ds

-- A constructor of dependencies that accepts each id that is not empty, and keeps it.
record IsMaker (plan_id : String) (f : String → DecisionDependency) : Type 0 where
  accepts : (id : String) → is_empty id ≡ false → dependency_post_init (f id) ≡ ok (f id)
  keeps_entity : (id : String) → (f id).entity_id ≡ id
  owns : (id : String) → IsOwn plan_id (f id)

module _ (plan_id : String) (f : String → DecisionDependency) (maker : IsMaker plan_id f) where
  append_each-ok : (ids : List String) → AreNamed ids → append_each f ids ≡ ok (map f ids)
  unfolding append_each
  append_each-ok [] h = refl
  append_each-ok (id ∷ ids) h = rw (maker.accepts id h.0, append_each-ok ids h.1) refl

  names-each : (e : String) (ids : List String) → names e (map f ids) ≡ contains ids e
  names-each e [] = refl
  names-each e (id ∷ ids) =
      ground (arith, ap (λ x. e == x) (maker.keeps_entity id), names-each e ids)

  each-IsOwn : (ids : List String) → All (IsOwn plan_id) (map f ids)
  each-IsOwn [] = tt
  each-IsOwn (id ∷ ids) = (maker.owns id, each-IsOwn ids)

module _ (plan_id : String) where
  users-IsMaker : IsMaker plan_id (affected_user plan_id)
  unfolding dependency_post_init
  users-IsMaker = record {
    accepts = λ id h. rw (starts_with-append "DEP-" (concat plan_id (concat "-USER-" id)), h) refl;
    keeps_entity = λ id. refl;
    owns = affected_user-IsOwn plan_id;
  }

  systems-IsMaker : IsMaker plan_id (affected_system plan_id)
  unfolding dependency_post_init
  systems-IsMaker = record {
    accepts =
        λ id h. rw (starts_with-append "DEP-" (concat plan_id (concat "-SYSTEM-" id)), h) refl;
    keeps_entity = λ id. refl;
    owns = affected_system-IsOwn plan_id;
  }

  target_users-IsMaker : (s : ActionPlanStep) → IsMaker plan_id (target_user plan_id s)
  unfolding dependency_post_init
  target_users-IsMaker s = record {
    accepts = λ id h. rw (starts_with-append "DEP-" _, h) refl;
    keeps_entity = λ id. refl;
    owns = target_user-IsOwn plan_id s;
  }

  target_systems-IsMaker : (s : ActionPlanStep) → IsMaker plan_id (target_system plan_id s)
  unfolding dependency_post_init
  target_systems-IsMaker s = record {
    accepts = λ id h. rw (starts_with-append "DEP-" _, h) refl;
    keeps_entity = λ id. refl;
    owns = target_system-IsOwn plan_id s;
  }

  -- What the loop over the steps collects.
  abbrev targets_of : List ActionPlanStep → List DecisionDependency
  targets_of [] = []
  targets_of (s ∷ steps) =
      map (target_user plan_id s) (named s.target_user_id)
      ++ map (target_system plan_id s) (named s.target_system_id)
      ++ targets_of steps

  append_targets-ok :
      (steps : List ActionPlanStep) → append_targets plan_id steps ≡ ok (targets_of steps)
  unfolding append_targets
  append_targets-ok [] = refl
  append_targets-ok (s ∷ steps) =
      rw
        (
          append_each-ok plan_id _ (target_users-IsMaker s) (named s.target_user_id)
              (named-AreNamed s.target_user_id),
          append_each-ok plan_id _ (target_systems-IsMaker s) (named s.target_system_id)
              (named-AreNamed s.target_system_id),
          append_targets-ok steps,
        )
        refl

  targets-IsOwn : (steps : List ActionPlanStep) → All (IsOwn plan_id) (targets_of steps)
  targets-IsOwn [] = tt
  targets-IsOwn (s ∷ steps) =
      All-append (IsOwn plan_id) _ (targets_of steps)
        (All-append (IsOwn plan_id) _ _
          (each-IsOwn plan_id _ (target_users-IsMaker s) (named s.target_user_id))
          (each-IsOwn plan_id _ (target_systems-IsMaker s) (named s.target_system_id)))
        (targets-IsOwn steps)

  names-targets :
      (e : String) (steps : List ActionPlanStep)
      → names e (targets_of steps) ≡ any (λ (s : ActionPlanStep). contains (targets s) e) steps
  names-targets e [] = refl
  names-targets e (s ∷ steps) =
      let users = map (target_user plan_id s) (named s.target_user_id) in
      let systems = map (target_system plan_id s) (named s.target_system_id) in
      ground (
        arith,
        any-append (λ (d : DecisionDependency). e == d.entity_id) (users ++ systems)
            (targets_of steps),
        any-append (λ (d : DecisionDependency). e == d.entity_id) users systems,
        names-each plan_id _ (target_users-IsMaker s) e (named s.target_user_id),
        names-each plan_id _ (target_systems-IsMaker s) e (named s.target_system_id),
        contains-append (named s.target_user_id) (named s.target_system_id) e,
        names-targets e steps,
      )

abbrev all_of : ActionPlan → List DecisionDependency
all_of plan =
    map (affected_user plan.plan_id) plan.affected_user_ids
    ++ map (affected_system plan.plan_id) plan.affected_system_ids
    ++ targets_of plan.plan_id plan.steps

all-IsOwn : (plan : ActionPlan) → All (IsOwn plan.plan_id) (all_of plan)
all-IsOwn plan =
    All-append (IsOwn plan.plan_id) _ (targets_of plan.plan_id plan.steps)
      (All-append (IsOwn plan.plan_id) _ _
        (each-IsOwn plan.plan_id _ (users-IsMaker plan.plan_id) plan.affected_user_ids)
        (each-IsOwn plan.plan_id _ (systems-IsMaker plan.plan_id) plan.affected_system_ids))
      (targets-IsOwn plan.plan_id plan.steps)

names-all :
    (plan : ActionPlan) (e : String)
    → names e (all_of plan) ≡ (
        contains plan.affected_user_ids e
        || contains plan.affected_system_ids e
        || any (λ (s : ActionPlanStep). contains (targets s) e) plan.steps)
names-all plan e =
    let users = map (affected_user plan.plan_id) plan.affected_user_ids in
    let systems = map (affected_system plan.plan_id) plan.affected_system_ids in
    ground (
      arith,
      any-append (λ (d : DecisionDependency). e == d.entity_id) (users ++ systems)
          (targets_of plan.plan_id plan.steps),
      any-append (λ (d : DecisionDependency). e == d.entity_id) users systems,
      names-each plan.plan_id _ (users-IsMaker plan.plan_id) e plan.affected_user_ids,
      names-each plan.plan_id _ (systems-IsMaker plan.plan_id) e plan.affected_system_ids,
      names-targets plan.plan_id e plan.steps,
    )

analyze-ok :
    (plan : ActionPlan)
    → IsPlan plan
    → AreNamed plan.affected_user_ids
    → AreNamed plan.affected_system_ids
    → analyze plan ≡ ok (map_of plan (ordered_of (all_of plan)))
unfolding analyze map_post_init
analyze-ok plan h users systems =
    rw
      (
        append_each-ok plan.plan_id _ (users-IsMaker plan.plan_id) plan.affected_user_ids users,
        append_each-ok plan.plan_id _ (systems-IsMaker plan.plan_id) plan.affected_system_ids
            systems,
        append_targets-ok plan.plan_id plan.steps,
        starts_with-append "DMAP-" plan.plan_id,
        h.plan_id,
        h.decision_id,
      )
      refl

-- What the map of a plan holds.
pub record IsMapOf (plan : ActionPlan) (m : DecisionDependencyMap) : Type 0 where
  pub fits : Fits plan (some m)
  pub ids : All (IsOwn plan.plan_id) m.dependencies
  pub entities :
      (e : String)
      → any (λ (d : DecisionDependency). e == d.entity_id) m.dependencies ≡ (
          contains plan.affected_user_ids e
          || contains plan.affected_system_ids e
          || any (λ (s : ActionPlanStep). contains (targets s) e) plan.steps)

-- For a plan of the constructor without empty affected ids, `analyze` returns a map that belongs to
-- the plan, in which each dependency's id starts with DEP- and tells its entity, and whose entities
-- are exactly the affected users and systems and the targets of the steps: the dictionary by ids
-- drops no entity.
pub analyze_covers :
    (plan : ActionPlan)
    → IsPlan plan
    → AreNamed plan.affected_user_ids
    → AreNamed plan.affected_system_ids
    → (m : DecisionDependencyMap) × (analyze plan ≡ ok m) × IsMapOf plan m
analyze_covers plan h users systems = (
  map_of plan (ordered_of (all_of plan)),
  analyze-ok plan h users systems,
  record {
    fits = (refl, refl);
    ids = ordered-IsOwn plan.plan_id (all_of plan) (all-IsOwn plan);
    entities = λ e. any-ordered plan.plan_id e (all_of plan) (all-IsOwn plan) ∙ names-all plan e;
  },
)
