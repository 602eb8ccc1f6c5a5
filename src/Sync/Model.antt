-- ===== src/Sync/Model.antt =====
-- The identities of an organization and its nodes (distributed_organization_identity.py), and the
-- payloads and records of cloud_sync.py, with the checks of their constructors.
--
-- A negative number of attempts, which the source refuses, has no value here. Parsing a timestamp,
-- replacing in a text and hashing are the library's: `fromisoformat` tells whether it returns.
use yoma.Prelude.{ℕ, String, Bool, true, false, Option, ◌==◌, ◌&&◌, is_blank, concat}
use yoma.Result.{Result, ok, value_error, raise_if, raise_unless, ◌>>◌}
use yoma.Value.{Mapping}

pub record DistributedOrganizationIdentity : Type 0 where
  pub organization_id : String
  pub organization_name : String
  pub deployment_id : String
  pub edition : String

pub record DistributedNodeIdentity : Type 0 where
  pub node_id : String
  pub organization_id : String
  pub deployment_id : String
  pub node_name : String
  pub node_type : String

abbrev pub belongs_to : DistributedNodeIdentity → DistributedOrganizationIdentity → Bool
belongs_to n o = n.organization_id == o.organization_id && n.deployment_id == o.deployment_id

-- `if not value.strip(): raise`
abbrev pub require : String → String → Result (Unit {0})
require name value =
    raise_if (is_blank value) (value_error (concat name " must be a non-empty string"))

unfoldable pub organization_post_init :
    DistributedOrganizationIdentity → Result DistributedOrganizationIdentity
organization_post_init o = do
  require "organization_id" o.organization_id
  require "organization_name" o.organization_name
  require "deployment_id" o.deployment_id
  require "edition" o.edition
  ok o

unfoldable pub node_post_init : DistributedNodeIdentity → Result DistributedNodeIdentity
node_post_init n = do
  require "node_id" n.node_id
  require "organization_id" n.organization_id
  require "deployment_id" n.deployment_id
  require "node_name" n.node_name
  require "node_type" n.node_type
  ok n

pub record CloudSyncIdentity : Type 0 where
  pub organization_id : String
  pub deployment_id : String
  pub node_id : String

unfoldable pub identity_post_init : CloudSyncIdentity → Result CloudSyncIdentity
identity_post_init i = do
  require "organization_id" i.organization_id
  require "deployment_id" i.deployment_id
  require "node_id" i.node_id
  ok i

abbrev pub identity_key : CloudSyncIdentity → String
identity_key i =
    concat i.organization_id (concat ":" (concat i.deployment_id (concat ":" i.node_id)))

unfoldable pub from_identities :
    DistributedOrganizationIdentity → DistributedNodeIdentity → Result CloudSyncIdentity
from_identities o n = do
  raise_unless (belongs_to n o) (value_error "node does not belong to the organization deployment")
  identity_post_init (record {
    organization_id = o.organization_id;
    deployment_id = o.deployment_id;
    node_id = n.node_id;
  })

pub data CloudSyncState : Type 0 where
  pending synced failed : CloudSyncState

abbrev pub is_pending : CloudSyncState → Bool
is_pending pending = true
is_pending _ = false

abbrev pub is_synced : CloudSyncState → Bool
is_synced synced = true
is_synced _ = false

abbrev pub is_failed : CloudSyncState → Bool
is_failed failed = true
is_failed _ = false

pub record CloudSyncPayload : Type 0 where
  pub event_type : String
  pub event_id : String
  pub occurred_at : String
  pub content : Mapping

-- `replace_z` is `replace("Z", "+00:00")`.
unfoldable pub payload_post_init :
    (String → Bool) → (String → String) → CloudSyncPayload → Result CloudSyncPayload
payload_post_init fromisoformat replace_z p = do
  require "event_type" p.event_type
  require "event_id" p.event_id
  require "occurred_at" p.occurred_at
  raise_unless (fromisoformat (replace_z p.occurred_at))
      (value_error "occurred_at must be a valid ISO timestamp")
  ok p

pub record CloudSyncRecord : Type 0 where
  pub sync_id : String
  pub identity : CloudSyncIdentity
  pub payload : CloudSyncPayload
  pub state : CloudSyncState
  pub attempts : ℕ
  pub last_error : Option String

unfoldable pub record_post_init : CloudSyncRecord → Result CloudSyncRecord
record_post_init r = do require "sync_id" r.sync_id; ok r

pub record CloudSyncResult : Type 0 where
  pub sync_id : String
  pub state : CloudSyncState
  pub accepted : Bool
  pub duplicate : Bool
  pub error : Option String
  pub requires_human_approval : Bool
  pub executable : Bool
