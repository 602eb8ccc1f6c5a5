-- ===== src/Rollback/Model.antt =====
-- The four data classes, with the checks of their constructors.
use yoma.Prelude.{ℕ, String, Bool, List, Option, is_nil, is_empty, starts_with, ltb}
use yoma.Result.{Result, ok, value_error, raise_if, raise_unless, ◌>>◌}
use yoma.Value.{Mapping}

pub record RollbackAction : Type 0 where
  pub rollback_id : String
  pub source_action_id : String
  pub sequence : ℕ
  pub action_type : String
  pub description : String
  pub target_user_id : Option String
  pub target_system_id : Option String
  pub parameters : Mapping
  pub requires_human_approval : Bool
  pub executable : Bool

unfoldable pub action_post_init : RollbackAction → Result RollbackAction
action_post_init a = do
  raise_unless (starts_with a.rollback_id "RBAC-") (value_error "rollback_id must start with RBAC-")
  raise_if (is_empty a.source_action_id) (value_error "source_action_id is required")
  raise_if (ltb a.sequence 1) (value_error "sequence must be >= 1")
  raise_if (is_empty a.action_type) (value_error "action_type is required")
  raise_unless a.requires_human_approval (value_error "rollback actions require human approval")
  raise_if a.executable (value_error "rollback actions are not executable")
  ok a

pub record TransactionBoundary : Type 0 where
  pub boundary_id : String
  pub execution_plan_id : String
  pub action_ids : List String
  pub atomic : Bool
  pub rollback_supported : Bool
  pub requires_human_approval : Bool
  pub executable : Bool

unfoldable pub boundary_post_init : TransactionBoundary → Result TransactionBoundary
boundary_post_init b = do
  raise_unless (starts_with b.boundary_id "TXB-") (value_error "boundary_id must start with TXB-")
  raise_if (is_empty b.execution_plan_id) (value_error "execution_plan_id is required")
  raise_if (is_nil b.action_ids) (value_error "transaction boundary requires actions")
  raise_unless b.requires_human_approval
      (value_error "transaction boundaries require human approval")
  raise_if b.executable (value_error "transaction boundaries are not executable")
  ok b

pub data TransactionStatus : Type 0 where
  planned committed failed rollback_required rolled_back : TransactionStatus

pub record TransactionRollbackPlan : Type 0 where
  pub rollback_plan_id : String
  pub execution_plan_id : String
  pub transaction_boundary_id : String
  pub failed_action_id : Option String
  pub committed_action_ids : List String
  pub rollback_actions : List RollbackAction
  pub status : TransactionStatus
  pub rollback_required : Bool
  pub requires_human_approval : Bool
  pub executable : Bool

unfoldable pub plan_post_init : TransactionRollbackPlan → Result TransactionRollbackPlan
plan_post_init p = do
  raise_unless (starts_with p.rollback_plan_id "RBPLAN-")
      (value_error "rollback_plan_id must start with RBPLAN-")
  raise_if (is_empty p.execution_plan_id) (value_error "execution_plan_id is required")
  raise_if (is_empty p.transaction_boundary_id) (value_error "transaction_boundary_id is required")
  raise_unless p.requires_human_approval (value_error "rollback planning requires human approval")
  raise_if p.executable (value_error "rollback plans are not executable")
  ok p

pub record TransactionIntelligence : Type 0 where
  pub transaction_id : String
  pub execution_plan_id : String
  pub boundary : TransactionBoundary
  pub rollback_plan : TransactionRollbackPlan
  pub ordered_action_ids : List String
  pub requires_human_approval : Bool
  pub executable : Bool

unfoldable pub transaction_post_init : TransactionIntelligence → Result TransactionIntelligence
transaction_post_init t = do
  raise_unless (starts_with t.transaction_id "TX-")
      (value_error "transaction_id must start with TX-")
  raise_unless t.requires_human_approval
      (value_error "transaction intelligence requires human approval")
  raise_if t.executable (value_error "transaction intelligence is not executable")
  ok t
