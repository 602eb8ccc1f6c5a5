-- ===== src/Rollback/Engine.antt =====
-- `TransactionRollbackIntelligenceEngine`; its state is the dictionary of transactions.
use mathlib.Core.List.{reverse}
use yoma.Prelude.{
  ℕ, suc, String, Bool, true, false, not, List, [], ◌∷◌, Option, none, some, ◌==◌, concat, decimal,
  is_nil, if◌then◌else◌,
}
use yoma.Result.{Result, ok, err, value_error, key_error, raise_unless, ◌>>=◌, ◌>>◌}
use yoma.Exec.{Exec}
use yoma.Dict
use yoma.Dict.{Dict}
use yoma.Value.{Value}
use yoma.MultiAction.Model.{MultiAction, MultiActionExecutionPlan, action_ids}
use yoma.Ordering.Model.{ExecutionOrder}
use yoma.Ordering.Engine.{action_lookup}
use yoma.Rollback.Model.{
  RollbackAction, action_post_init, TransactionBoundary, boundary_post_init, planned, failed,
  rollback_required, TransactionRollbackPlan, plan_post_init, TransactionIntelligence,
  transaction_post_init,
}

abbrev pub transaction_id : String → String
transaction_id plan_id = concat "TX-" plan_id

abbrev pub boundary_id : String → String
boundary_id plan_id = concat "TXB-" plan_id

abbrev pub boundary_of : String → List String → TransactionBoundary
boundary_of plan_id ids = record {
  boundary_id = boundary_id plan_id;
  execution_plan_id = plan_id;
  action_ids = ids;
  atomic = true;
  rollback_supported = true;
  requires_human_approval = true;
  executable = false;
}

abbrev pub planned_of : String → TransactionRollbackPlan
planned_of plan_id = record {
  rollback_plan_id = concat "RBPLAN-" plan_id;
  execution_plan_id = plan_id;
  transaction_boundary_id = boundary_id plan_id;
  failed_action_id = none;
  committed_action_ids = [];
  rollback_actions = [];
  status = planned;
  rollback_required = false;
  requires_human_approval = true;
  executable = false;
}

abbrev pub transaction_of : String → List String → TransactionIntelligence
transaction_of plan_id ids = record {
  transaction_id = transaction_id plan_id;
  execution_plan_id = plan_id;
  boundary = boundary_of plan_id ids;
  rollback_plan = planned_of plan_id;
  ordered_action_ids = ids;
  requires_human_approval = true;
  executable = false;
}

-- The three constructors that `build` calls, in turn.
unfoldable pub made_transaction : String → List String → Result TransactionIntelligence
made_transaction plan_id ids = do
  boundary_post_init (boundary_of plan_id ids) >>= λ b. plan_post_init (planned_of plan_id) >>= λ p.
      transaction_post_init (transaction_of plan_id ids)

abbrev pub ordered_ids : MultiActionExecutionPlan → Option ExecutionOrder → List String
ordered_ids p none = action_ids p.actions
ordered_ids p (some o) = o.ordered_action_ids

abbrev pub is_foreign : MultiActionExecutionPlan → Option ExecutionOrder → Bool
is_foreign p none = false
is_foreign p (some o) = not (o.execution_plan_id == p.execution_plan_id)

abbrev pub save_transaction :
    Result TransactionIntelligence → Exec (Dict TransactionIntelligence) TransactionIntelligence
save_transaction (ok t) d = (ok t, Dict.put d t.transaction_id t)
save_transaction (err e) d = (err e, d)

abbrev pub known_or :
    Option TransactionIntelligence
    → Result TransactionIntelligence
    → Exec (Dict TransactionIntelligence) TransactionIntelligence
known_or (some t) made d = (ok t, d)
known_or none made d = save_transaction made d

unfoldable pub build :
    MultiActionExecutionPlan
    → Option ExecutionOrder
    → Exec (Dict TransactionIntelligence) TransactionIntelligence
build p o d =
    if is_foreign p o
    then (err (value_error "execution order must belong to the execution plan"), d)
    else known_or (Dict.get d (transaction_id p.execution_plan_id))
        (made_transaction p.execution_plan_id (ordered_ids p o)) d

-- The loop that looks for a committed action that the plan does not have.
unfoldable pub check_committed : Dict MultiAction → List String → Result (Unit {0})
check_committed lookup [] = ok tt
check_committed lookup (id ∷ ids) = do
  raise_unless (Dict.has lookup id)
      (value_error (concat "committed action " (concat id " is not in execution plan")))
  check_committed lookup ids

-- `action_lookup[action_id]`
abbrev pub looked_up : String → Option MultiAction → Result MultiAction
looked_up id none = err (key_error id)
looked_up id (some a) = ok a

abbrev pub rollback_of : String → ℕ → MultiAction → RollbackAction
rollback_of plan_id index a = record {
  rollback_id = concat "RBAC-" (concat plan_id (concat "-" (decimal index)));
  source_action_id = a.action_id;
  sequence = index;
  action_type = concat "rollback." a.action_type;
  description = concat "Compensate action: " a.description;
  target_user_id = a.target_user_id;
  target_system_id = a.target_system_id;
  parameters =
      ("source_action_id", Value.text a.action_id) ∷ ("compensating", Value.flag true) ∷ [];
  requires_human_approval = true;
  executable = false;
}

-- The loop over `enumerate(reversed(committed), start=index)`.
unfoldable pub rollback_from :
    Dict MultiAction → String → ℕ → List String → Result (List RollbackAction)
rollback_from lookup plan_id index [] = ok []
rollback_from lookup plan_id index (id ∷ ids) = do
  a ← looked_up id (Dict.get lookup id)
  r ← action_post_init (rollback_of plan_id index a)
  rs ← rollback_from lookup plan_id (suc index) ids
  ok (r ∷ rs)

abbrev pub rollback_plan_of :
    String → String → List String → List RollbackAction → TransactionRollbackPlan
rollback_plan_of plan_id failed_id committed actions = record {
  rollback_plan_id = concat "RBPLAN-" (concat plan_id (concat "-" failed_id));
  execution_plan_id = plan_id;
  transaction_boundary_id = boundary_id plan_id;
  failed_action_id = some failed_id;
  committed_action_ids = committed;
  rollback_actions = actions;
  status = if is_nil committed then failed else rollback_required;
  rollback_required = not (is_nil committed);
  requires_human_approval = true;
  executable = false;
}

unfoldable pub plan_rollback :
    MultiActionExecutionPlan → String → List String → Result TransactionRollbackPlan
plan_rollback p failed_id committed = do
  raise_unless (Dict.has (action_lookup p.actions) failed_id)
      (value_error "failed_action_id is not in execution plan")
  check_committed (action_lookup p.actions) committed
  actions ← rollback_from (action_lookup p.actions) p.execution_plan_id 1 (reverse committed)
  plan_post_init (rollback_plan_of p.execution_plan_id failed_id committed actions)
