-- ===== src/Gateway/Execute.antt =====
-- The methods of `ActionExecutionGateway`.
use yoma.Prelude.{
  String, Bool, true, false, not, Option, none, some, [], is_empty, concat, if◌then◌else◌,
}
use yoma.Result.{value_error, type_error, runtime_error, Result, ok, err, raise_if}
use yoma.Exec.{Exec, return, lift, gets, modify, ◌>>=◌, ◌>>◌}
use yoma.Dict
use yoma.Dict.{Dict}
use yoma.Value.{Mapping, DateTime}
use yoma.Gateway.Model.{
  Status, running, succeeded, failed, rejected, ExecutionResult, result_post_init, ExecutionRecord,
  Outcome, returned, returned_none, returned_other, raised, Executor, Gateway, message_of,
}

-- What a caller of `execute` passes.
pub record Request : Type 0 where
  pub action_id : String
  pub action_type : String
  pub executor_name : String
  pub created_at : DateTime
  pub parameters : Mapping

abbrev pub execution_id : String → String
execution_id action_id = concat "EXEC-" action_id

abbrev pub rejection_id : String → String
rejection_id action_id = concat "EXEC-" (concat action_id "-REJECTED")

-- The record of a run, in each of its states.
abbrev pub record_of :
    Request → Status → Option DateTime → Mapping → Option String → ExecutionRecord
record_of q status completed_at output error = record {
  execution_id = execution_id q.action_id;
  action_id = q.action_id;
  action_type = q.action_type;
  executor_name = q.executor_name;
  status = status;
  created_at = q.created_at;
  started_at = some q.created_at;
  completed_at = completed_at;
  output = output;
  error = error;
  requires_human_approval = true;
}

abbrev pub result_of : Request → Status → Mapping → Option String → ExecutionResult
result_of q status output error = record {
  execution_id = execution_id q.action_id;
  action_id = q.action_id;
  status = status;
  started_at = q.created_at;
  completed_at = some q.created_at;
  output = output;
  error = error;
  requires_human_approval = true;
  executable = true;
}

abbrev pub no_approval : String
no_approval = "human approval is required before execution"

abbrev pub rejection_record : Request → ExecutionRecord
rejection_record q = record {
  execution_id = rejection_id q.action_id;
  action_id = q.action_id;
  action_type = q.action_type;
  executor_name = q.executor_name;
  status = rejected;
  created_at = q.created_at;
  started_at = none;
  completed_at = some q.created_at;
  output = [];
  error = some no_approval;
  requires_human_approval = true;
}

abbrev pub rejection_result : Request → ExecutionResult
rejection_result q = record {
  execution_id = rejection_id q.action_id;
  action_id = q.action_id;
  status = rejected;
  started_at = q.created_at;
  completed_at = some q.created_at;
  output = [];
  error = some no_approval;
  requires_human_approval = true;
  executable = false;
}

-- `output`, after the tests on what the executor returned.
abbrev pub output_of : Outcome → Result Mapping
output_of (returned m) = ok m
output_of returned_none = ok []
output_of returned_other = err (type_error "executor must return a mapping")
output_of (raised message) = err (runtime_error message)

module _ {W : Type 0} where
  unfoldable pub register_executor : String → Executor W → Exec (Gateway W) (Unit {0})
  register_executor name executor = do
    lift (raise_if (is_empty name) (value_error "executor name is required"))
    known ← gets (λ g. Dict.has g.executors name)
    lift (raise_if known (value_error (concat "executor already registered: " name)))
    modify (λ g. record g { executors = Dict.put g.executors name executor })

  unfoldable pub unregister_executor : String → Exec (Gateway W) (Unit {0})
  unregister_executor name = modify (λ g. record g { executors = Dict.pop g.executors name })

  unfoldable pub get_record : Gateway W → String → Option ExecutionRecord
  get_record g id = Dict.get g.records id

  -- `self._records[key] = entry`
  abbrev pub store : String → ExecutionRecord → Exec (Gateway W) (Unit {0})
  store key entry = modify (λ g. record g { records = Dict.put g.records key entry })

  -- The call of the executor, which acts on the world.
  abbrev pub call : Executor W → Request → Exec (Gateway W) Outcome
  call executor q g =
      let (outcome, world) = executor q.action_id q.action_type q.parameters g.world in
      (ok outcome, record g { world = world })

  -- The body of the `try` behind the call; an exception of the executor is raised here again.
  abbrev pub attempt : Request → Outcome → Exec (Gateway W) ExecutionResult
  attempt q outcome = do
    output ← lift (output_of outcome)
    store (execution_id q.action_id) (record_of q succeeded (some q.created_at) output none)
    lift (result_post_init (result_of q succeeded output none))

  -- The `except Exception` clause.
  abbrev pub recover : Request → Result ExecutionResult → Exec (Gateway W) ExecutionResult
  recover q (ok r) = return r
  recover q (err e) = do
    store (execution_id q.action_id)
        (record_of q failed (some q.created_at) [] (some (message_of e)))
    lift (result_post_init (result_of q failed [] (some (message_of e))))

  unfoldable pub conclude : Request → Outcome → Exec (Gateway W) ExecutionResult
  conclude q outcome g = let (r, g') = attempt q outcome g in recover q r g'

  abbrev pub found : Request → Option (Executor W) → Result (Executor W)
  found q none = err (value_error (concat "executor is not registered: " q.executor_name))
  found q (some executor) = ok executor

  unfoldable pub run_approved : Request → Exec (Gateway W) ExecutionResult
  run_approved q = do
    registered ← gets (λ g. Dict.get g.executors q.executor_name)
    executor ← lift (found q registered)
    existing ← gets (λ g. Dict.has g.records (execution_id q.action_id))
    lift (
        raise_if existing
          (value_error (concat "execution already exists: " (execution_id q.action_id))))
    store (execution_id q.action_id) (record_of q running none [] none)
    outcome ← call executor q
    conclude q outcome

  unfoldable pub refuse : Request → Exec (Gateway W) ExecutionResult
  refuse q = do
    r ← lift (result_post_init (rejection_result q))
    store (rejection_id q.action_id) (rejection_record q)
    return r

  unfoldable pub execute : Request → Bool → Exec (Gateway W) ExecutionResult
  execute q approved = do
    lift (raise_if (is_empty q.action_id) (value_error "action_id is required"))
    lift (raise_if (is_empty q.action_type) (value_error "action_type is required"))
    if not approved then refuse q else run_approved q

  unfoldable pub execute_approved : Request → Exec (Gateway W) ExecutionResult
  unfolding execute
  execute_approved q = execute q true
