-- ===== src/Policy/Check.antt =====
-- `PolicyConstraint`, `PolicyCheckResult` and `PolicyConstraintEngine`.
use yoma.Prelude.{
  contains, overlaps, String, Bool, true, false, not, List, [], ◌∷◌, ◌++◌, map, ◌&&◌, ◌||◌, is_nil,
  is_empty, concat, length, starts_with, text_leb, if◌then◌else◌,
}
use yoma.Result.{Result, ok, value_error, raise_if, raise_unless, ◌>>=◌, ◌>>◌}
use yoma.Sorted.{sort_by}
use yoma.Value.{Value, Mapping}
use yoma.Plan.{ActionPlan, ActionPlanStep}

pub record PolicyConstraint : Type 0 where
  pub constraint_id : String
  pub constraint_type : String
  pub description : String
  pub allowed : Bool
  pub action_types : List String
  pub priorities : List String
  pub user_ids : List String
  pub system_ids : List String
  pub metadata : Mapping

unfoldable pub constraint_post_init : PolicyConstraint → Result PolicyConstraint
constraint_post_init c = do
  raise_unless (starts_with c.constraint_id "POL-")
      (value_error "constraint_id must start with POL-")
  raise_if (is_empty c.constraint_type) (value_error "constraint_type must not be empty")
  raise_if (is_empty c.description) (value_error "description must not be empty")
  ok c

pub data PolicyStatus : Type 0 where
  allowed restricted blocked : PolicyStatus

abbrev pub is_blocked : PolicyStatus → Bool
is_blocked blocked = true
is_blocked _ = false

-- `content` is the source's field `data`.
pub record PolicyCheckResult : Type 0 where
  pub check_id : String
  pub plan_id : String
  pub decision_id : String
  pub status : PolicyStatus
  pub passed_constraint_ids : List String
  pub failed_constraint_ids : List String
  pub reasons : List String
  pub requires_human_approval : Bool
  pub content : Mapping

unfoldable pub check_post_init : PolicyCheckResult → Result PolicyCheckResult
check_post_init r = do
  raise_unless (starts_with r.check_id "PCHECK-") (value_error "check_id must start with PCHECK-")
  raise_unless (starts_with r.plan_id "APLAN-") (value_error "plan_id must start with APLAN-")
  raise_unless (starts_with r.decision_id "DINT-") (value_error "decision_id must start with DINT-")
  raise_unless r.requires_human_approval (value_error "policy checks require human approval")
  ok r

abbrev pub plan_types : ActionPlan → List String
plan_types plan = map (λ (s : ActionPlanStep). s.action_type) plan.steps

-- `_matches`, with its early returns.
unfoldable pub matches : ActionPlan → PolicyConstraint → Bool
matches plan c =
    if not (is_nil c.action_types) && not (overlaps (plan_types plan) c.action_types)
    then false
    else if not (is_nil c.priorities) && not (contains c.priorities plan.priority)
    then false
    else if not (is_nil c.user_ids) && not (overlaps plan.affected_user_ids c.user_ids)
    then false
    else if not (is_nil c.system_ids) && not (overlaps plan.affected_system_ids c.system_ids)
    then false
    else not (is_nil c.action_types)
      || not (is_nil c.priorities)
      || not (is_nil c.user_ids)
      || not (is_nil c.system_ids)

-- The three lists that the loop of `evaluate` fills.
pub record Tally : Type 0 where
  pub passed : List String
  pub failed : List String
  pub reasons : List String

abbrev pub reason_of : PolicyConstraint → String
reason_of c = concat c.constraint_id (concat ": " c.description)

-- The body of the loop.
unfoldable pub judge : ActionPlan → Tally → PolicyConstraint → Tally
judge plan t c =
    if not (matches plan c)
    then record t { passed = t.passed ++ c.constraint_id ∷ [] }
    else if c.allowed
    then record t { passed = t.passed ++ c.constraint_id ∷ [] }
    else record t {
      failed = t.failed ++ c.constraint_id ∷ [];
      reasons = t.reasons ++ reason_of c ∷ [];
    }

unfoldable pub tally : ActionPlan → Tally → List PolicyConstraint → Tally
tally plan t [] = t
tally plan t (c ∷ cs) = tally plan (judge plan t c) cs

abbrev pub status_of : Tally → PolicyStatus
status_of t = if is_nil t.failed then allowed else blocked

abbrev pub empty_tally : Tally
empty_tally = record { passed = []; failed = []; reasons = [] }

abbrev pub check_of : ActionPlan → List PolicyConstraint → Tally → PolicyCheckResult
check_of plan constraints t = record {
  check_id = concat "PCHECK-" plan.plan_id;
  plan_id = plan.plan_id;
  decision_id = plan.decision_id;
  status = status_of t;
  passed_constraint_ids = sort_by text_leb t.passed;
  failed_constraint_ids = sort_by text_leb t.failed;
  reasons = t.reasons;
  requires_human_approval = true;
  content =
      ("constraint_count", Value.number (length constraints))
      ∷ ("plan_priority", Value.text plan.priority)
      ∷ [];
}

-- `evaluate`, of an engine with these constraints.
unfoldable pub evaluate : List PolicyConstraint → ActionPlan → Result PolicyCheckResult
unfolding check_post_init
evaluate constraints plan =
    check_post_init (check_of plan constraints (tally plan empty_tally constraints))

unfoldable pub evaluate_many :
    List PolicyConstraint → List ActionPlan → Result (List PolicyCheckResult)
evaluate_many constraints [] = ok []
evaluate_many constraints (plan ∷ plans) = do
  check ← evaluate constraints plan
  checks ← evaluate_many constraints plans
  ok (check ∷ checks)
