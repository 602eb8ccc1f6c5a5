-- ===== src/Gateway/Model.antt =====
-- `ExecutionResult`, `ExecutionRecord`, and the state of `ActionExecutionGateway`.
--
-- An executor is code that the program is given: it takes the action's id, its type and the
-- parameters, and acts on a world of any type `W`. It has no reference to the gateway.
use yoma.Prelude.{String, Bool, ◌≡◌, true, false, arith, Option, is_empty, starts_with}
use yoma.Result.{
  Error, value_error, type_error, key_error, permission_error, runtime_error, Result, ok, raise_if,
  raise_unless, ◌>>◌,
}
use yoma.Dict.{Dict}
use yoma.Value.{Mapping, DateTime}

pub data Status : Type 0 where
  pending running succeeded failed rejected : Status

abbrev pub is_running : Status → Bool
is_running running = true
is_running _ = false

pub record ExecutionResult : Type 0 where
  pub execution_id : String
  pub action_id : String
  pub status : Status
  pub started_at : DateTime
  pub completed_at : Option DateTime
  pub output : Mapping
  pub error : Option String
  pub requires_human_approval : Bool
  pub executable : Bool

unfoldable pub result_post_init : ExecutionResult → Result ExecutionResult
result_post_init r = do
  raise_unless (starts_with r.execution_id "EXEC-")
      (value_error "execution_id must start with EXEC-")
  raise_if (is_empty r.action_id) (value_error "action_id is required")
  ok r

pub result_post_init_accepts :
    (r : ExecutionResult)
    → starts_with r.execution_id "EXEC-" ≡ true
    → is_empty r.action_id ≡ false
    → result_post_init r ≡ ok r
unfolding result_post_init
result_post_init_accepts r h k = ground arith

pub record ExecutionRecord : Type 0 where
  pub execution_id : String
  pub action_id : String
  pub action_type : String
  pub executor_name : String
  pub status : Status
  pub created_at : DateTime
  pub started_at : Option DateTime
  pub completed_at : Option DateTime
  pub output : Mapping
  pub error : Option String
  pub requires_human_approval : Bool

-- What a call of an executor comes back with; `other` is a value that is no mapping.
pub data Outcome : Type 0 where
  returned : Mapping → Outcome
  returned_none returned_other : Outcome
  raised : String → Outcome

abbrev pub Executor : Type 0 → Type 0
Executor W = String → String → Mapping → W → Outcome × W

-- The two dictionaries of the gateway, and the world that its executors act on.
pub record Gateway (W : Type 0) : Type 0 where
  pub executors : Dict (Executor W)
  pub records : Dict ExecutionRecord
  pub world : W

-- `str(exc)`
abbrev pub message_of : Error → String
message_of (value_error m) = m
message_of (type_error m) = m
message_of (key_error m) = m
message_of (permission_error m) = m
message_of (runtime_error m) = m
