-- ===== src/Plan.antt =====
-- src/yoma/office/action_planning.py: the advisory plan that a human decides on, and its checks.
use yoma.Prelude.{
  ℕ, suc, String, Bool, ◌≡◌, true, List, [], ◌∷◌, Option, eqb, leb, is_empty, starts_with, ◌&&◌,
  arith,
}
use yoma.Result.{Result, ok, value_error, raise_if, raise_unless, ◌>>◌}
use yoma.Value.{Mapping, DateTime}

-- The weight is counted in thousandths; a negative one, which the source refuses, has no value here.
pub record ActionPlanEvidence : Type 0 where
  pub evidence_id : String
  pub source_id : String
  pub description : String
  pub weight : ℕ
  pub content : Mapping

pub record ActionPlanStep : Type 0 where
  pub step_id : String
  pub sequence : ℕ
  pub action_type : String
  pub description : String
  pub target_user_id : Option String
  pub target_system_id : Option String
  pub parameters : Mapping
  pub evidence_ids : List String
  pub requires_human_approval : Bool

pub record ActionPlan : Type 0 where
  pub plan_id : String
  pub decision_id : String
  pub created_at : DateTime
  pub decision_type : String
  pub priority : String
  pub reason : String
  pub steps : List ActionPlanStep
  pub evidence : List ActionPlanEvidence
  pub affected_user_ids : List String
  pub affected_system_ids : List String
  pub requires_human_approval : Bool
  pub metadata : Mapping

unfoldable pub evidence_post_init : ActionPlanEvidence → Result ActionPlanEvidence
evidence_post_init e = do
  raise_if (is_empty e.evidence_id) (value_error "evidence_id must not be empty")
  raise_if (is_empty e.source_id) (value_error "source_id must not be empty")
  raise_unless (leb e.weight 1000) (value_error "weight must be between 0 and 1")
  ok e

unfoldable pub step_post_init : ActionPlanStep → Result ActionPlanStep
step_post_init s = do
  raise_if (is_empty s.step_id) (value_error "step_id must not be empty")
  raise_unless (leb 1 s.sequence) (value_error "sequence must be >= 1")
  raise_if (is_empty s.action_type) (value_error "action_type must not be empty")
  raise_if (is_empty s.description) (value_error "description must not be empty")
  raise_unless s.requires_human_approval
      (value_error "action plan steps must require human approval")
  ok s

-- `[step.sequence for step in steps] == list(range(first, first + len(steps)))`
unfoldable pub counts_from : ℕ → List ActionPlanStep → Bool
counts_from first [] = true
counts_from first (s ∷ steps) = eqb s.sequence first && counts_from (suc first) steps

unfoldable pub plan_post_init : ActionPlan → Result ActionPlan
plan_post_init p = do
  raise_unless (starts_with p.plan_id "APLAN-") (value_error "plan_id must start with APLAN-")
  raise_unless (starts_with p.decision_id "DINT-") (value_error "decision_id must start with DINT-")
  raise_unless p.requires_human_approval (value_error "action plans must require human approval")
  raise_unless (counts_from 1 p.steps) (value_error "steps must have contiguous sequence numbers")
  ok p

-- A plan that went through its constructor.
pub record IsPlan (p : ActionPlan) : Type 0 where
  pub plan_id : starts_with p.plan_id "APLAN-" ≡ true
  pub decision_id : starts_with p.decision_id "DINT-" ≡ true
  pub human : p.requires_human_approval ≡ true
  pub contiguous : counts_from 1 p.steps ≡ true

pub IsPlan-of_post_init : (p : ActionPlan) {q : ActionPlan} → plan_post_init p ≡ ok q → IsPlan p
unfolding plan_post_init
IsPlan-of_post_init p h = ground arith
