-- ===== src/Gateway/Records.antt =====
-- What a call of the gateway does to its records and to the world.
use yoma.Prelude.{
  String, ◌≡◌, ◌⊎◌, inl, inr, false, Option, none, some, [], is_empty, concat, starts_with-append,
  Bool-cases, Option-cases,
}
use yoma.Result.{Error, value_error, Result, ok, err}
use yoma.Dict
use yoma.Dict.{Dict}
use yoma.Value.{Mapping}
use yoma.Gateway.Model.{
  Status, succeeded, failed, ExecutionResult, result_post_init, result_post_init_accepts,
  ExecutionRecord, Outcome, returned, returned_none, returned_other, raised, Executor, Gateway,
}
use yoma.Gateway.Execute.{
  Request, execution_id, record_of, result_of, conclude, run_approved, execute_approved,
}

-- How an outcome of the executor is entered: status, output, error.
abbrev pub status_of : Outcome → Status
status_of (returned m) = succeeded
status_of returned_none = succeeded
status_of returned_other = failed
status_of (raised message) = failed

abbrev pub entered_output : Outcome → Mapping
entered_output (returned m) = m
entered_output _ = []

abbrev pub entered_error : Outcome → Option String
entered_error (returned m) = none
entered_error returned_none = none
entered_error returned_other = some "executor must return a mapping"
entered_error (raised message) = some message

-- A request that has an action id and an action type.
pub record IsRequest (q : Request) : Type 0 where
  pub has_id : is_empty q.action_id ≡ false
  pub has_type : is_empty q.action_type ≡ false

accepts :
    (q : Request) (s : Status) (m : Mapping) (e : Option String)
    → IsRequest q
    → result_post_init (result_of q s m e) ≡ ok (result_of q s m e)
accepts q s m e h =
    result_post_init_accepts (result_of q s m e) (starts_with-append "EXEC-" q.action_id) h.has_id

abbrev pub final_record : Request → Outcome → ExecutionRecord
final_record q o =
    record_of q (status_of o) (some q.created_at) (entered_output o) (entered_error o)

abbrev pub final_result : Request → Outcome → ExecutionResult
final_result q o = result_of q (status_of o) (entered_output o) (entered_error o)

module _ {W : Type 0} where
  conclude_lem :
      (g : Gateway W) (q : Request) (o : Outcome)
      → IsRequest q
      → conclude q o g ≡ (
        ok (final_result q o),
        record g { records = Dict.put g.records (execution_id q.action_id) (final_record q o) },
      )
  unfolding conclude
  conclude_lem g q (returned m) h = rw (accepts q succeeded m none h)
  conclude_lem g q returned_none h = rw (accepts q succeeded [] none h)
  conclude_lem g q returned_other h =
      rw (accepts q failed [] (some "executor must return a mapping") h)
  conclude_lem g q (raised message) h = rw (accepts q failed [] (some message) h)

  -- The state and result of a run: one call of the executor, entered under the execution id.
  abbrev pub ran : Gateway W → Request → Executor W → Result ExecutionResult × Gateway W
  ran g q f =
      let (o, world) = f q.action_id q.action_type q.parameters g.world in
      (
        ok (final_result q o),
        record {
          executors = g.executors;
          records = Dict.put g.records (execution_id q.action_id) (final_record q o);
          world = world;
        },
      )

  -- An approved request whose executor is registered, and whose action has no record, calls the
  -- executor once on the world of the call; its outcome decides the result, which is entered under
  -- the execution id of the action, and no other record and no executor changes.
  pub execute_approved_runs :
      (g : Gateway W) (q : Request) (f : Executor W)
      → IsRequest q
      → Dict.get g.executors q.executor_name ≡ some f
      → Dict.get g.records (execution_id q.action_id) ≡ none
      → execute_approved q g ≡ ran g q f
  unfolding execute_approved run_approved
  execute_approved_runs g q f h e fresh =
      rw (h.has_id, h.has_type, e, fresh, conclude_lem _ q _ h, Dict.put-put)

  abbrev pub Refused : Gateway W → Request → Type 0
  Refused g q = (e : Error) × (execute_approved q g ≡ (err e, g))

  pub record Ran (g : Gateway W) (q : Request) : Type 0 where
    pub executor : Executor W
    pub request : IsRequest q
    pub registered : Dict.get g.executors q.executor_name ≡ some executor
    pub fresh : Dict.get g.records (execution_id q.action_id) ≡ none
    pub run : execute_approved q g ≡ ran g q executor

  -- Every approved request is refused and changes nothing at all, or it is run.
  pub execute_approved_cases : (g : Gateway W) (q : Request) → Refused g q ⊎ Ran g q
  unfolding execute_approved run_approved
  execute_approved_cases g q = elim (Bool-cases (is_empty q.action_id)) [
    | inl no_id ↦ inl (value_error "action_id is required", rw no_id)
    | inr has_id ↦ elim (Bool-cases (is_empty q.action_type)) [
      | inl no_type ↦ inl (value_error "action_type is required", rw (has_id, no_type))
      | inr has_type ↦ elim (Option-cases (Dict.get g.executors q.executor_name)) [
        | inl unknown ↦ inl (
          value_error (concat "executor is not registered: " q.executor_name),
          rw (has_id, has_type, unknown),
        )
        | inr (f, known) ↦ elim (Option-cases (Dict.get g.records (execution_id q.action_id))) [
          | inr (r, old) ↦ inl (
            value_error (concat "execution already exists: " (execution_id q.action_id)),
            rw (has_id, has_type, known, old),
          )
          | inl fresh ↦ inr (record {
            executor = f;
            request = record { has_id = has_id; has_type = has_type };
            registered = known;
            fresh = fresh;
            run =
                execute_approved_runs g q f (record { has_id = has_id; has_type = has_type }) known
                  fresh;
          })
        ]
      ]
    ]
  ]
