-- ===== src/Ordering/Agrees.antt =====
-- `analyze` beside `order`, on the same plan.
use mathlib.Core.Path.{fun_ext, ap₂}
use yoma.Prelude.{
  ℕ, zero, suc, String, Bool, ◌≡◌, refl, true, false, not, ◌||◌, List, [], ◌∷◌, ◌++◌, Option, none,
  some, is_nil, is_empty, length, eqb, keep, all, contains, text_leb, arith, Bool-cases, inl, inr,
  ap, ◌∙◌, sym, subst, is_unique, contains-append, starts_with-append,
}
use yoma.Result.{Result, ok, err, value_error}
use yoma.Sorted.{sort_by, is_nil-sort_by, contains-sort_by}
use yoma.Dict
use yoma.MultiAction.Model.{MultiActionExecutionPlan, action_ids}
use yoma.Ordering.Levels.{
  Levelling, placed, circular, put_level, ready, waiting, level_from, drain_from,
}
use yoma.Ordering.Knots.{levelling_decides}
use yoma.Ordering.Model.{ExecutionOrder, DependencyExecutionAnalysis, analysis_post_init}
use yoma.Ordering.Engine.{
  Engine, order_id, analysis_id, action_lookup, dependencies, dependencies_of, missing_of,
  blocked_order, levelled_order, order, order_new, analyze, analyze_new, analysis_of, save_analysis,
  ready_of,
}
use yoma.Ordering.Unique.{keys-lookup, eqb-is_unique}
use yoma.Ordering.Greatest.{IsGreatestKnot, stuck-IsGreatestKnot}
use yoma.Ordering.Decides.{save-levelled, save-blocked, missing_of-Closed}

-- What a levelling leaves.
abbrev remains : Levelling → List String
remains (placed levels) = []
remains (circular stuck) = stuck

abbrev drained : Option Levelling → Option (List String)
drained none = none
drained (some l) = some (remains l)

drained-put_level :
    (level : List String) (o : Option Levelling) → drained (put_level level o) ≡ drained o
drained-put_level level none = refl
drained-put_level level (some (placed levels)) = refl
drained-put_level level (some (circular stuck)) = refl

module _ (deps : String → List String) where
  ready_same :
      (c d remaining : List String)
      → contains c ≡ contains d
      → ready deps c remaining ≡ ready deps d remaining
  unfolding ready
  ready_same c d remaining same = ap (λ f. keep (λ id. all f (deps id)) remaining) same

  waiting_same :
      (c d remaining : List String)
      → contains c ≡ contains d
      → waiting deps c remaining ≡ waiting deps d remaining
  unfolding waiting
  waiting_same c d remaining same = ap (λ f. keep (λ id. not (all f (deps id))) remaining) same

  completed_same :
      (c d remaining : List String)
      → contains c ≡ contains d
      → contains (c ++ ready deps c remaining)
        ≡ contains (d ++ sort_by text_leb (ready deps d remaining))
  completed_same c d remaining same = fun_ext λ x.
      contains-append c (ready deps c remaining) x
      ∙ ap₂ ◌||◌ (ap (λ f. f x) same) (
          ap (λ r. contains r x) (ready_same c d remaining same)
          ∙ sym (contains-sort_by text_leb (ready deps d remaining) x))
      ∙ sym (contains-append d (sort_by text_leb (ready deps d remaining)) x)

  -- The loop of `analyze` leaves what the loop of `order` leaves.
  drain_from-level_from :
      (fuel : ℕ) (c d remaining : List String)
      → contains c ≡ contains d
      → drain_from deps fuel c remaining ≡ drained (level_from deps fuel d remaining)
  unfolding drain_from level_from
  drain_from-level_from fuel c d [] same = refl
  drain_from-level_from zero c d (id ∷ ids) same = refl
  drain_from-level_from (suc fuel) c d (id ∷ ids) same =
      let nils : is_nil (sort_by text_leb (ready deps d (id ∷ ids)))
          ≡ is_nil (ready deps c (id ∷ ids)) =
        is_nil-sort_by text_leb (ready deps d (id ∷ ids))
        ∙ ap is_nil (sym (ready_same c d (id ∷ ids) same)) in
      elim (Bool-cases (is_nil (ready deps c (id ∷ ids)))) [
        | inl stuck ↦ rw (stuck, nils ∙ stuck) refl
        | inr moves ↦
            rw (moves, nils ∙ moves, drained-put_level)
              (ap (drain_from deps fuel (c ++ ready deps c (id ∷ ids)))
                  (waiting_same c d (id ∷ ids) same)
                ∙ drain_from-level_from fuel _ _ (waiting deps d (id ∷ ids))
                    (completed_same c d (id ∷ ids) same))
      ]

-- What an analysis says beside the result of ordering the same plan.
abbrev pub Agrees :
    MultiActionExecutionPlan → Result ExecutionOrder → DependencyExecutionAnalysis → Type 0
Agrees p (ok o) a =
    (a.blocked_action_ids ≡ o.blocked_action_ids)
    × (a.missing_dependency_ids ≡ o.missing_dependency_ids)
    × (a.circular_dependency ≡ false)
Agrees p (err e) a =
    (e ≡ value_error "circular dependency detected in execution plan")
    × (a.circular_dependency ≡ true)
    × (a.missing_dependency_ids ≡ [])
    × IsGreatestKnot (dependencies_of p.actions) (action_ids p.actions) a.blocked_action_ids

-- Storing an analysis of the plan.
unfoldable pub noted : Engine → DependencyExecutionAnalysis → Engine
noted e a = record e { analyses = Dict.put e.analyses (analysis_id a.execution_plan_id) a }

save-analysis_of :
    (p : MultiActionExecutionPlan) (free blocked missing : List String) (is_circular : Bool)
    (e : Engine)
    → is_empty p.execution_plan_id ≡ false
    → save_analysis p.execution_plan_id (analysis_of p free blocked missing is_circular) e ≡ (
      ok (analysis_of p free blocked missing is_circular),
      noted e (analysis_of p free blocked missing is_circular),
    )
unfolding save_analysis analysis_post_init analysis_of noted
save-analysis_of p free blocked missing is_circular e named =
    simp (starts_with-append "DEPAN-" p.execution_plan_id, named)

eqb_of : (m n : ℕ) → m ≡ n → eqb m n ≡ true
eqb_of m n h = ground (arith, h)

-- A plan with an id and without duplicated ids that the engine has neither ordered nor analyzed:
-- `analyze` returns and stores its analysis. Where `order` returns, the analysis has the same blocked
-- and missing ids and no circular dependency. Where `order` raises, it is for a circular dependency,
-- the analysis has one, no missing ids, and as blocked ids, sorted and each once, the greatest set of
-- the plan's actions each of which depends on one of the set.
pub analysis-Agrees :
    (p : MultiActionExecutionPlan) (e : Engine)
    → is_empty p.execution_plan_id ≡ false
    → length (Dict.keys (action_lookup p.actions)) ≡ length p.actions
    → Dict.get e.orders (order_id p.execution_plan_id) ≡ none
    → Dict.get e.analyses (analysis_id p.execution_plan_id) ≡ none
    → (a : DependencyExecutionAnalysis) × (analyze p e ≡ (ok a, noted e a))
      × Agrees p (order p e).0 a
unfolding order order_new analyze analyze_new blocked_order levelled_order analysis_of sort_by
analysis-Agrees p e named once unordered unseen =
    let deps = dependencies_of p.actions in
    let ids = Dict.keys (action_lookup p.actions) in
    let free = sort_by text_leb (ready_of (dependencies p.actions)) in
    let unique : eqb (length ids) (length p.actions) ≡ true = eqb_of _ _ once in
    let different : is_unique (action_ids p.actions) ≡ true =
      sym (eqb-is_unique p.actions) ∙ unique in
    let named_ids : ids ≡ action_ids p.actions = keys-lookup p.actions different in
    elim (Bool-cases (is_nil (missing_of p.actions))) [
      | inr some_missing ↦
          let a =
            analysis_of p [] (sort_by text_leb (action_ids p.actions)) (missing_of p.actions)
              false in
          (
            a,
            rw
                (
                  unseen,
                  some_missing,
                  save-analysis_of p [] (sort_by text_leb (action_ids p.actions))
                      (missing_of p.actions) false e named,
                )
                refl,
            rw
                (
                  unordered,
                  unique,
                  some_missing,
                  save-blocked p.execution_plan_id (action_ids p.actions) (missing_of p.actions) e
                      named,
                )
                (refl, refl, refl),
          )
      | inl none_missing ↦
          elim (levelling_decides deps ids (missing_of-Closed p.actions none_missing)) [
            | inl (levels, ends, ordered, perm, no_knot) ↦ (
              analysis_of p free (sort_by text_leb []) [] false,
              rw
                  (
                    unseen,
                    none_missing,
                    drain_from-level_from deps (length ids) [] [] ids refl,
                    ends,
                    save-analysis_of p free (sort_by text_leb []) [] false e named,
                  )
                  refl,
              rw
                  (
                    unordered,
                    unique,
                    none_missing,
                    ends,
                    save-levelled p.execution_plan_id levels e named,
                  )
                  (refl, refl, refl),
            )
            | inr (stuck, ends, knot, within) ↦ (
              analysis_of p free (sort_by text_leb stuck) [] true,
              rw
                  (
                    unseen,
                    none_missing,
                    drain_from-level_from deps (length ids) [] [] ids refl,
                    ends,
                    knot.inhabited,
                    save-analysis_of p free (sort_by text_leb stuck) [] true e named,
                  )
                  refl,
              rw (unordered, unique, none_missing, ends)
                  (
                    refl,
                    refl,
                    refl,
                    subst (λ xs. IsGreatestKnot deps xs (sort_by text_leb stuck)) named_ids
                        (stuck-IsGreatestKnot deps (length ids) ids stuck ends
                          (ap is_unique named_ids ∙ different) knot within),
                  ),
            )
          ]
    ]
