-- ===== src/Policy/Verdict.antt =====
-- When a plan is blocked, and what the check reports.
use mathlib.Core.List.{Perm, append-nil, append_assoc}
use yoma.Prelude.{
  contains, overlaps, String, Bool, ◌≡◌, refl, not, List, [], ◌∷◌, ◌++◌, map, ◌&&◌, ◌||◌, any, keep,
  is_nil, arith, text_leb, if◌then◌else◌, Bool-cases, inl, inr, starts_with-append, ap, sym, ◌∙◌,
}
use yoma.Result.{ok}
use yoma.Sorted.{sort_by-perm}
use yoma.Plan.{ActionPlan, IsPlan}
use yoma.Policy.Check.{
  PolicyConstraint, allowed, blocked, PolicyCheckResult, matches, plan_types, Tally, judge, tally,
  empty_tally, check_of, reason_of, evaluate,
}

-- A criterion that is not given holds of every plan.
abbrev pub meets : List String → List String → Bool
meets values wanted = is_nil wanted || overlaps values wanted

-- A constraint applies to a plan if it gives a criterion and the plan meets all that it gives.
abbrev pub applies : ActionPlan → PolicyConstraint → Bool
applies plan c =
    not (is_nil c.action_types && is_nil c.priorities && is_nil c.user_ids && is_nil c.system_ids)
    && meets (plan_types plan) c.action_types
    && (is_nil c.priorities || contains c.priorities plan.priority)
    && meets plan.affected_user_ids c.user_ids
    && meets plan.affected_system_ids c.system_ids

-- The early returns of `_matches` decide whether the constraint gives a criterion and the plan meets
-- all that it gives.
pub matches-eq-applies :
    (plan : ActionPlan) (c : PolicyConstraint) → matches plan c ≡ applies plan c
unfolding matches
matches-eq-applies plan c = ground arith

-- A constraint that forbids applies.
abbrev pub violates : ActionPlan → PolicyConstraint → Bool
violates plan c = applies plan c && not c.allowed

abbrev ids : List PolicyConstraint → List String
ids = map (λ (c : PolicyConstraint). c.constraint_id)

abbrev violated : ActionPlan → List PolicyConstraint → List PolicyConstraint
violated plan = keep (violates plan)

abbrev kept : ActionPlan → List PolicyConstraint → List PolicyConstraint
kept plan = keep (λ c. not (violates plan c))

judge_lem :
    (plan : ActionPlan) (t : Tally) (c : PolicyConstraint)
    → judge plan t c ≡ (
        if violates plan c
        then record t {
          failed = t.failed ++ c.constraint_id ∷ [];
          reasons = t.reasons ++ reason_of c ∷ [];
        }
        else record t { passed = t.passed ++ c.constraint_id ∷ [] })
unfolding judge
judge_lem plan t c = rw (sym (matches-eq-applies plan c)) (ground arith)

tally_lem :
    (plan : ActionPlan) (cs : List PolicyConstraint) (t : Tally)
    → tally plan t cs ≡ record {
      passed = t.passed ++ ids (kept plan cs);
      failed = t.failed ++ ids (violated plan cs);
      reasons = t.reasons ++ map reason_of (violated plan cs);
    }
unfolding tally
tally_lem plan [] t = simp append-nil
tally_lem plan (c ∷ cs) t = elim (Bool-cases (violates plan c)) [
  | inl fails ↦ rw (judge_lem, fails) (tally_lem plan cs _ ∙ simp append_assoc)
  | inr passes ↦ rw (judge_lem, passes) (tally_lem plan cs _ ∙ simp append_assoc)
]

-- What a check reports of a plan, whatever the order of the constraints.
pub record IsReport (plan : ActionPlan) (cs : List PolicyConstraint) (r : PolicyCheckResult)
    : Type 0 where
  pub plan_id : r.plan_id ≡ plan.plan_id
  pub verdict : r.status ≡ (if any (violates plan) cs then blocked else allowed)
  pub failed : Perm r.failed_constraint_ids (ids (violated plan cs))
  pub passed : Perm r.passed_constraint_ids (ids (kept plan cs))
  pub reasons : r.reasons ≡ map reason_of (violated plan cs)

-- The status by the list of failures, for any test.
verdict_lem :
    (p : PolicyConstraint → Bool) (cs : List PolicyConstraint)
    → (if is_nil (ids (keep p cs)) then allowed else blocked)
      ≡ (if any p cs then blocked else allowed)
verdict_lem p [] = refl
verdict_lem p (c ∷ cs) = elim (Bool-cases (p c)) [
  | inl holds ↦ rw holds refl
  | inr fails ↦ rw fails (verdict_lem p cs)
]

-- A well-formed plan is always evaluated: it is blocked exactly if a constraint that forbids applies
-- to it, the ids of those constraints are the failed ones, all others passed, and each failure has
-- its reason.
pub evaluate-IsReport :
    (cs : List PolicyConstraint) (plan : ActionPlan)
    → IsPlan plan
    → (r : PolicyCheckResult) × (evaluate cs plan ≡ ok r) × IsReport plan cs r
unfolding evaluate
evaluate-IsReport cs plan h = (
  check_of plan cs (tally plan empty_tally cs),
  ground (arith, starts_with-append "PCHECK-" plan.plan_id),
  record {
    plan_id = refl;
    verdict = rw (tally_lem plan cs empty_tally) (verdict_lem (violates plan) cs);
    failed = rw (tally_lem plan cs empty_tally) (sort_by-perm text_leb (ids (violated plan cs)));
    passed = rw (tally_lem plan cs empty_tally) (sort_by-perm text_leb (ids (kept plan cs)));
    reasons = ap (λ (t : Tally). t.reasons) (tally_lem plan cs empty_tally);
  },
)
