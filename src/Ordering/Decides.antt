-- ===== src/Ordering/Decides.antt =====
-- What `order` does with a plan that it has not seen: every end of it.
use mathlib.Core.List.{Perm, flatten}
use yoma.Prelude.{
  String, Bool, ◌≡◌, inl, inr, refl, true, false, not, ◌&&◌, List, [], ◌∷◌, map, none, is_nil,
  is_empty, is_unique, length, eqb, contains, all, All, text_leb, arith, Bool-cases, Option-cases,
  ◌∙◌, sym, keep, dedupe, contains-dedupe, is_nil-contains, contains-append, contains-keep,
  starts_with-append,
}
use yoma.Result.{ok, err, value_error}
use yoma.Sorted.{is_nil-sort_by}
use yoma.Dict
use yoma.Dict.{Dict, contains-keys}
use yoma.MultiAction.Model.{MultiAction, MultiActionExecutionPlan, action_ids}
use yoma.Ordering.Sound.{IsLevelled, IsKnot}
use yoma.Ordering.Knots.{Within, levelling_decides}
use yoma.Ordering.Unique.{eqb-is_unique}
use yoma.Ordering.Model.{ExecutionOrder, order_post_init, same_texts_refl}
use yoma.Ordering.Engine.{
  Engine, order_id, index, action_lookup, dependencies, dependencies_of, missing_of, blocked_order,
  levelled_order, save_order, order_new, order,
}

pub index-AllEntries :
    {V : Type 0} (P : String → V → Type 0) (f : MultiAction → V) (d : Dict V)
    (actions : List MultiAction)
    → Dict.AllEntries P d
    → All (λ a. P a.action_id (f a)) actions
    → Dict.AllEntries P (index f d actions)
index-AllEntries P f d [] h all = h
index-AllEntries P f d (a ∷ actions) h all =
    index-AllEntries P f (Dict.put d a.action_id (f a)) actions
      (Dict.AllEntries-put P d a.action_id (f a) h all.0) all.1

abbrev pub all_dependencies : List MultiAction → List String
all_dependencies actions = flatten (map (λ (a : MultiAction). a.dependency_ids) actions)

dependency_ids-Within :
    (actions : List MultiAction) (names : List String)
    → Within (all_dependencies actions) names
    → All (λ a. Within a.dependency_ids names) actions
unfolding flatten
dependency_ids-Within [] names h = tt
dependency_ids-Within (a ∷ actions) names h = (
  λ x m. h x (ground (arith, contains-append a.dependency_ids (all_dependencies actions) x, m)),
  dependency_ids-Within actions names
      λ x m. h x (ground (arith, contains-append a.dependency_ids (all_dependencies actions) x, m)),
)

pub dependencies_of-Within :
    (actions : List MultiAction) (x : String)
    → Within (dependencies_of actions x) (all_dependencies actions)
dependencies_of-Within actions x d m = elim (Option-cases (Dict.get (dependencies actions) x)) [
  | inl unknown ↦ cc (rw unknown at m)
  | inr (ds, known) ↦
      Dict.AllEntries-get (λ k v. Within v (all_dependencies actions)) (dependencies actions) x ds
        (index-AllEntries (λ k v. Within v (all_dependencies actions)) (λ a. a.dependency_ids) []
          actions tt (dependency_ids-Within actions (all_dependencies actions) λ y n. n))
        known d (rw known at m)
]

drop_not : (a b : Bool) → (not a && b) ≡ false → b ≡ true → a ≡ true
drop_not a b h m = ground arith

-- Without a missing dependency, each one is an action's id.
pub missing_of-Known :
    (actions : List MultiAction) (d : String)
    → is_nil (missing_of actions) ≡ true
    → contains (all_dependencies actions) d ≡ true
    → contains (Dict.keys (action_lookup actions)) d ≡ true
unfolding missing_of
missing_of-Known actions d none_missing n =
    let unknown =
      keep (λ id. not (Dict.has (action_lookup actions) id)) (all_dependencies actions) in
    contains-keys (action_lookup actions) d
    ∙ drop_not _ (contains (all_dependencies actions) d)
        (sym (
            contains-keep (λ id. not (Dict.has (action_lookup actions) id))
              (all_dependencies actions) d)
          ∙ sym (contains-dedupe unknown d)
          ∙ is_nil-contains (dedupe unknown) d
              (sym (is_nil-sort_by text_leb (dedupe unknown)) ∙ none_missing))
        n

pub missing_of-Closed :
    (actions : List MultiAction)
    → is_nil (missing_of actions) ≡ true
    → (x d : String) → contains (Dict.keys (action_lookup actions)) x ≡ true
    → contains (dependencies_of actions x) d ≡ true
    → contains (Dict.keys (action_lookup actions)) d ≡ true
missing_of-Closed actions none_missing x d m n =
    missing_of-Known actions d none_missing (dependencies_of-Within actions x d n)

-- Storing an order of the plan.
unfoldable pub saved : Engine → String → ExecutionOrder → Engine
saved e plan_id o = record e { orders = Dict.put e.orders (order_id plan_id) o }

pub save-levelled :
    (plan_id : String) (levels : List (List String)) (e : Engine)
    → is_empty plan_id ≡ false
    → save_order plan_id (levelled_order plan_id levels) e
      ≡ (ok (levelled_order plan_id levels), saved e plan_id (levelled_order plan_id levels))
unfolding save_order order_post_init levelled_order saved
save-levelled plan_id levels e named =
    rw (starts_with-append "ORDER-" plan_id, named, same_texts_refl (flatten levels)) refl

pub save-blocked :
    (plan_id : String) (ids missing : List String) (e : Engine)
    → is_empty plan_id ≡ false
    → save_order plan_id (blocked_order plan_id ids missing) e ≡ (
      ok (blocked_order plan_id ids missing),
      saved e plan_id (blocked_order plan_id ids missing),
    )
unfolding save_order order_post_init blocked_order saved flatten
save-blocked plan_id ids missing e named = rw (starts_with-append "ORDER-" plan_id, named) refl

-- The ends of `order` for a plan of whose order the engine has none.
pub data Ordered (p : MultiActionExecutionPlan) (e : Engine) : Type 0 where
  duplicate :
      is_unique (action_ids p.actions) ≡ false
      → order p e ≡ (err (value_error "execution plan contains duplicate action IDs"), e)
      → Ordered p e
  blocked :
      is_unique (action_ids p.actions) ≡ true
      → is_nil (missing_of p.actions) ≡ false
      → order p e ≡ (
        ok (blocked_order p.execution_plan_id (action_ids p.actions) (missing_of p.actions)),
        saved e p.execution_plan_id
            (blocked_order p.execution_plan_id (action_ids p.actions) (missing_of p.actions)),
      )
      → Ordered p e
  levelled :
      (levels : List (List String))
      → is_unique (action_ids p.actions) ≡ true
      → is_nil (missing_of p.actions) ≡ true
      → order p e ≡ (
        ok (levelled_order p.execution_plan_id levels),
        saved e p.execution_plan_id (levelled_order p.execution_plan_id levels),
      )
      → IsLevelled (dependencies_of p.actions) [] levels
      → Perm (flatten levels) (Dict.keys (action_lookup p.actions))
      → ((knot : List String)
          → IsKnot (dependencies_of p.actions) knot
          → Within knot (Dict.keys (action_lookup p.actions))
          → ⊥)
      → Ordered p e
  knotted :
      (knot : List String)
      → is_unique (action_ids p.actions) ≡ true
      → is_nil (missing_of p.actions) ≡ true
      → order p e ≡ (err (value_error "circular dependency detected in execution plan"), e)
      → IsKnot (dependencies_of p.actions) knot
      → Within knot (Dict.keys (action_lookup p.actions))
      → Ordered p e

-- A plan with an id that the engine has not ordered. If two of its actions have one id, `order`
-- refuses it and leaves the engine as it is. If all ids are different, it stores a fully blocked order
-- when a dependency names no action; or stores levels that respect the dependencies and hold each
-- action once, and then no actions wait for one another; or finds a set of actions that wait for one
-- another, refuses, and leaves the engine as it is.
pub order_cases :
    (p : MultiActionExecutionPlan) (e : Engine)
    → is_empty p.execution_plan_id ≡ false
    → Dict.get e.orders (order_id p.execution_plan_id) ≡ none
    → Ordered p e
unfolding order order_new
order_cases p e named unseen =
    let ids = Dict.keys (action_lookup p.actions) in
    let tells = sym (eqb-is_unique p.actions) in
    elim (Bool-cases (eqb (length ids) (length p.actions))) [
      | inr twice ↦ Ordered.duplicate (tells ∙ twice) (rw (unseen, twice) refl)
      | inl once ↦ elim (Bool-cases (is_nil (missing_of p.actions))) [
        | inr some_missing ↦ Ordered.blocked (tells ∙ once) some_missing (
            rw
              (
                unseen,
                once,
                some_missing,
                save-blocked p.execution_plan_id (action_ids p.actions) (missing_of p.actions) e
                    named,
              )
              refl)
        | inl none_missing ↦
            elim (levelling_decides (dependencies_of p.actions) ids
              (missing_of-Closed p.actions none_missing)) [
                | inl (levels, ends, ordered, same, no_knot) ↦
                    Ordered.levelled levels (tells ∙ once) none_missing
                      (rw
                        (
                          unseen,
                          once,
                          none_missing,
                          ends,
                          save-levelled p.execution_plan_id levels e named,
                        )
                        refl)
                      ordered same no_knot
                | inr (stuck, ends, knot, within) ↦
                    Ordered.knotted stuck (tells ∙ once) none_missing
                      (rw (unseen, once, none_missing, ends) refl) knot within
              ]
      ]
    ]
