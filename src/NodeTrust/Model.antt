-- ===== src/NodeTrust/Model.antt =====
-- The data classes, with the checks of their constructors. Types check what `isinstance` does.
use yoma.Prelude.{String, Bool, false, not, List, Option, none, some, is_blank, is_empty, concat}
use yoma.Result.{Result, ok, value_error, raise_if, raise_unless, ◌>>◌}
use yoma.Value.{DateTime}

pub data NodeTrustState : Type 0 where
  unknown trusted suspended revoked : NodeTrustState

pub record DistributedNodeTrust : Type 0 where
  pub node_id : String
  pub organization_id : String
  pub deployment_id : String
  pub state : NodeTrustState
  pub reason : String
  pub registered_at : Option DateTime
  pub updated_at : Option DateTime

abbrev pub needed : String → String → Result (Unit {0})
needed name value = raise_if (is_blank value) (value_error (concat name " is required"))

abbrev pub is_naive : Option DateTime → Bool
is_naive none = false
is_naive (some t) = not t.aware

abbrev pub aware_time : String → Option DateTime → Result (Unit {0})
aware_time name t = raise_if (is_naive t) (value_error (concat name " must be timezone-aware"))

unfoldable pub trust_post_init : DistributedNodeTrust → Result DistributedNodeTrust
trust_post_init t = do
  needed "node_id" t.node_id
  needed "organization_id" t.organization_id
  needed "deployment_id" t.deployment_id
  aware_time "registered_at" t.registered_at
  aware_time "updated_at" t.updated_at
  ok t

pub record DistributedNodeSecurityResult : Type 0 where
  pub node_id : String
  pub organization_id : String
  pub deployment_id : String
  pub valid : Bool
  pub state : NodeTrustState
  pub issues : List String
  pub trust : Option DistributedNodeTrust
  pub requires_human_approval : Bool
  pub executable : Bool
  pub execution_allowed : Bool

unfoldable pub result_post_init :
    DistributedNodeSecurityResult → Result DistributedNodeSecurityResult
result_post_init r = do
  raise_if (is_empty r.node_id) (value_error "node_id is required")
  raise_if (is_empty r.organization_id) (value_error "organization_id is required")
  raise_if (is_empty r.deployment_id) (value_error "deployment_id is required")
  raise_if r.executable (value_error "distributed node security cannot authorize execution")
  raise_if r.execution_allowed (value_error "distributed node security cannot allow execution")
  raise_unless r.requires_human_approval
      (value_error "distributed node security requires human approval")
  ok r
