-- ===== src/Rollback/Compensation.antt =====
-- Which actions a rollback plan compensates, and in which order, for transaction_rollback.py.
use mathlib.Core.List.{reverse, reverse_aux}
use mathlib.Core.Path.{ap₂}
use yoma.Prelude.{
  ℕ, suc, ◌≤◌, String, Bool, ◌≡◌, ◌⊎◌, inl, inr, refl, true, false, not, List, [], ◌∷◌, map, Option,
  none, some, is_empty, is_nil, is_some, starts_with, starts_with-append, concat, decimal, ltb, All,
  All-mono, eq_iff, all, arith, Bool-cases, Option-cases, ap, subst,
}
use yoma.Result.{Error, ok, err, value_error}
use yoma.Dict
use yoma.Dict.{Dict}
use yoma.MultiAction.Model.{MultiAction, MultiActionExecutionPlan}
use yoma.Ordering.Engine.{action_lookup}
use yoma.Ordering.Decides.{index-AllEntries}
use yoma.Rollback.Model.{RollbackAction, action_post_init, TransactionRollbackPlan, plan_post_init}
use yoma.Rollback.Engine.{
  check_committed, rollback_of, rollback_from, rollback_plan_of, plan_rollback,
}

-- `range(first, first + n)`
abbrev pub count_up : ℕ → List String → List ℕ
count_up first [] = []
count_up first (x ∷ xs) = first ∷ count_up (suc first) xs

-- The actions' ids are not empty.
abbrev pub AllNamed : List MultiAction → Type 0
AllNamed actions = All (λ a. is_empty a.action_id ≡ false) actions

abbrev pub sources : List RollbackAction → List String
sources = map (λ (a : RollbackAction). a.source_action_id)

abbrev pub sequences : List RollbackAction → List ℕ
sequences = map (λ (a : RollbackAction). a.sequence)

check_committed_lem :
    (lookup : Dict MultiAction) (ids : List String)
    → all (Dict.has lookup) ids ≡ true
    → check_committed lookup ids ≡ ok tt
unfolding check_committed
check_committed_lem lookup [] h = refl
check_committed_lem lookup (id ∷ ids) h = elim (Bool-cases (Dict.has lookup id)) [
  | inl known ↦ rw known (check_committed_lem lookup ids (ground (arith, h, known)))
  | inr unknown ↦ cc (rw unknown at h)
]

check_committed_stops :
    (lookup : Dict MultiAction) (ids : List String)
    → all (Dict.has lookup) ids ≡ false
    → (e : Error) × (check_committed lookup ids ≡ err e)
unfolding check_committed
check_committed_stops lookup [] h = cc
check_committed_stops lookup (id ∷ ids) h = elim (Bool-cases (Dict.has lookup id)) [
  | inr unknown ↦
      (value_error (concat "committed action " (concat id " is not in execution plan")), rw unknown)
  | inl known ↦
      let (e, stops) = check_committed_stops lookup ids (ground (arith, h, known)) in
      (e, rw known stops)
]

All-of_all : (p : String → Bool) (xs : List String) → all p xs ≡ true → All (λ x. p x ≡ true) xs
All-of_all p [] h = tt
All-of_all p (x ∷ xs) h = (ground (arith, h), All-of_all p xs (ground (arith, h)))

prefix_nonempty : (s : String) → is_empty (concat "rollback." s) ≡ false
prefix_nonempty s = elim (Bool-cases (is_empty (concat "rollback." s))) [
  | inl empty ↦ cc (
      subst (λ t. starts_with t "rollback." ≡ true) ((eq_iff (concat "rollback." s) "").0 empty)
        (starts_with-append "rollback." s))
  | inr other ↦ other
]

All-reverse_aux :
    (P : String → Type 0) (xs ys : List String) → All P xs → All P ys → All P (reverse_aux xs ys)
All-reverse_aux P [] ys h k = k
All-reverse_aux P (x ∷ xs) ys h k = All-reverse_aux P xs (x ∷ ys) h.1 (h.0, k)

named_lem :
    (actions : List MultiAction) (id : String) (a : MultiAction)
    → AllNamed actions
    → Dict.get (action_lookup actions) id ≡ some a
    → (a.action_id ≡ id) × (is_empty a.action_id ≡ false)
named_lem actions id a named e =
    Dict.AllEntries-get (λ k (v : MultiAction). (v.action_id ≡ k) × (is_empty v.action_id ≡ false))
      (action_lookup actions) id a
      (index-AllEntries _ (λ a. a) [] actions tt
        (All-mono (λ (a : MultiAction). is_empty a.action_id ≡ false) _ (λ a n. (refl, n)) actions
          named))
      e

lacks : (o : Option MultiAction) → o ≡ none → is_some o ≡ true → ⊥
lacks none e m = cc
lacks (some a) e m = cc

-- The compensation of committed actions, in the order in which they are given.
rollback_from_lem :
    (actions : List MultiAction) (plan_id : String) (index : ℕ) (ids : List String)
    → AllNamed actions
    → All (λ id. Dict.has (action_lookup actions) id ≡ true) ids
    → 1 ≤ index
    → (rs : List RollbackAction) × (rollback_from (action_lookup actions) plan_id index ids ≡ ok rs)
      × (sources rs ≡ ids)
      × (sequences rs ≡ count_up index ids)
unfolding rollback_from action_post_init
rollback_from_lem actions plan_id index [] named h k = ([], refl, refl, refl)
rollback_from_lem actions plan_id index (id ∷ ids) named h k =
    elim (Option-cases (Dict.get (action_lookup actions) id)) [
      | inl unknown ↦ absurd (lacks _ unknown h.0)
      | inr (a, known) ↦
          let (same, has_id) = named_lem actions id a named known in
          let (rs, done, from, numbers) =
            rollback_from_lem actions plan_id (suc index) ids named h.1 (omega arith) in
          let positive : ltb index 1 ≡ false = ground arith in
          (
            rollback_of plan_id index a ∷ rs,
            simp (
              known,
              starts_with-append "RBAC-" (concat plan_id (concat "-" (decimal index))),
              has_id,
              prefix_nonempty a.action_type,
              positive,
              done,
            ),
            ap₂ ◌∷◌ same from,
            ap (λ ns. index ∷ ns) numbers,
          )
    ]

-- What a rollback plan says: its failed and committed actions, one compensation for each committed
-- action from the last back to the first, numbered from one, and whether there is anything to do.
pub record IsCompensation (failed_id : String) (ids : List String) (r : TransactionRollbackPlan)
    : Type 0 where
  pub failed : r.failed_action_id ≡ some failed_id
  pub committed : r.committed_action_ids ≡ ids
  pub from : sources r.rollback_actions ≡ reverse ids
  pub numbers : sequences r.rollback_actions ≡ count_up 1 (reverse ids)
  pub required : r.rollback_required ≡ not (is_nil ids)

tied_nonempty : (s : String) → is_empty (concat "TXB-" s) ≡ false
tied_nonempty s = elim (Bool-cases (is_empty (concat "TXB-" s))) [
  | inl empty ↦ cc (
      subst (λ t. starts_with t "TXB-" ≡ true) ((eq_iff (concat "TXB-" s) "").0 empty)
        (starts_with-append "TXB-" s))
  | inr other ↦ other
]

plan_post_init_lem :
    (plan_id failed_id : String) (committed : List String) (rs : List RollbackAction)
    → is_empty plan_id ≡ false
    → plan_post_init (rollback_plan_of plan_id failed_id committed rs)
      ≡ ok (rollback_plan_of plan_id failed_id committed rs)
unfolding plan_post_init
plan_post_init_lem plan_id failed_id committed rs has_id = simp (
  starts_with-append "RBPLAN-" (concat plan_id (concat "-" failed_id)),
  has_id,
  tied_nonempty plan_id,
)

-- Planning a rollback, for a plan with an id and named actions: it is refused, or the failed action
-- and all committed ones are in the plan and the result compensates them in reverse order.
pub plan_rollback_cases :
    (p : MultiActionExecutionPlan) (failed_id : String) (committed : List String)
    → is_empty p.execution_plan_id ≡ false
    → AllNamed p.actions
    → ((e : Error) × (plan_rollback p failed_id committed ≡ err e)
        × (all (Dict.has (action_lookup p.actions)) (failed_id ∷ committed) ≡ false))
      ⊎ ((r : TransactionRollbackPlan) × (plan_rollback p failed_id committed ≡ ok r)
          × (all (Dict.has (action_lookup p.actions)) (failed_id ∷ committed) ≡ true)
          × IsCompensation failed_id committed r)
unfolding plan_rollback
plan_rollback_cases p failed_id committed has_id named =
    elim (Bool-cases (Dict.has (action_lookup p.actions) failed_id)) [
      | inr unknown ↦
          inl (value_error "failed_action_id is not in execution plan", rw unknown, rw unknown)
      | inl known ↦ elim (Bool-cases (all (Dict.has (action_lookup p.actions)) committed)) [
        | inr some_unknown ↦
            let (e, stops) =
              check_committed_stops (action_lookup p.actions) committed some_unknown in
            inl (e, simp (known, stops), simp (known, some_unknown))
        | inl all_known ↦
            let (rs, done, from, numbers) =
              rollback_from_lem p.actions p.execution_plan_id 1 (reverse committed) named
                (All-reverse_aux _ committed []
                  (All-of_all (Dict.has (action_lookup p.actions)) committed all_known) tt)
                (omega arith) in
            inr (
              rollback_plan_of p.execution_plan_id failed_id committed rs,
              simp (
                known,
                check_committed_lem (action_lookup p.actions) committed all_known,
                done,
                plan_post_init_lem p.execution_plan_id failed_id committed rs has_id,
              ),
              simp (known, all_known),
              record {
                failed = refl;
                committed = refl;
                from = from;
                numbers = numbers;
                required = refl;
              },
            )
      ]
    ]
