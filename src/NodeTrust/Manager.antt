-- ===== src/NodeTrust/Manager.antt =====
-- `DistributedNodeSecurityManager`. The clock is read at most twice in a call: what it gives is an
-- argument, and aware, as `datetime.now(timezone.utc)` is.
use yoma.Prelude.{
  ℕ, String, true, false, List, [], ◌∷◌, ◌++◌, Option, none, some, is_nil, ◌==◌, if◌then◌else◌,
}
use yoma.Result.{Result, ok, value_error}
use yoma.Exec.{Exec, return, lift, modify, ◌>>=◌, ◌>>◌}
use yoma.Value.{DateTime}
use yoma.Sync.Model.{DistributedOrganizationIdentity, DistributedNodeIdentity, belongs_to}
use yoma.NodeTrust.Model.{
  NodeTrustState, DistributedNodeTrust, trust_post_init, DistributedNodeSecurityResult,
  result_post_init,
}

pub record Manager : Type 0 where
  pub organization : DistributedOrganizationIdentity
  pub node : DistributedNodeIdentity
  pub trust : Option DistributedNodeTrust

unfoldable pub new : DistributedOrganizationIdentity → DistributedNodeIdentity → Result Manager
new organization node =
    if belongs_to node organization
    then ok (record { organization = organization; node = node; trust = none })
    else Result.err (value_error "node does not belong to organization deployment")

abbrev pub utc : ℕ → DateTime
utc now = record { instant = now; aware = true }

-- `self._trust = DistributedNodeTrust(...)`
abbrev pub assign : DistributedNodeTrust → Exec Manager DistributedNodeTrust
assign t = do
  made ← lift (trust_post_init t)
  modify (λ (m : Manager). record m { trust = some made })
  return made

abbrev pub registered : ℕ → DistributedNodeIdentity → DistributedNodeTrust
registered now node = record {
  node_id = node.node_id;
  organization_id = node.organization_id;
  deployment_id = node.deployment_id;
  state = NodeTrustState.unknown;
  reason = "node_registered_pending_trust";
  registered_at = some (utc now);
  updated_at = some (utc now);
}

unfoldable pub register : ℕ → Exec Manager DistributedNodeTrust
register now m = assign (registered now m.node) m

-- The trust behind `if self._trust is None: self.register()`.
abbrev pub current : ℕ → Option DistributedNodeTrust → Exec Manager DistributedNodeTrust
current now none = register now
current now (some t) = return t

abbrev pub moved : NodeTrustState → String → ℕ → DistributedNodeTrust → DistributedNodeTrust
moved state reason now t = record t { state = state; reason = reason; updated_at = some (utc now) }

abbrev pub move_to : NodeTrustState → String → ℕ → ℕ → Exec Manager DistributedNodeTrust
move_to state reason first now m =
    (current first m.trust >>= λ t. assign (moved state reason now t)) m

unfoldable pub trust_node : String → ℕ → ℕ → Exec Manager DistributedNodeTrust
trust_node reason first now = move_to NodeTrustState.trusted reason first now

unfoldable pub suspend_node : String → ℕ → ℕ → Exec Manager DistributedNodeTrust
suspend_node reason first now = move_to NodeTrustState.suspended reason first now

unfoldable pub revoke_node : String → ℕ → ℕ → Exec Manager DistributedNodeTrust
revoke_node reason first now = move_to NodeTrustState.revoked reason first now

abbrev pub mismatch : String → String → String → List String
mismatch given own issue = if given == own then [] else issue ∷ []

abbrev pub state_issues : NodeTrustState → List String
state_issues NodeTrustState.unknown = "node is not trusted" ∷ []
state_issues NodeTrustState.trusted = []
state_issues NodeTrustState.suspended = "node is suspended" ∷ []
state_issues NodeTrustState.revoked = "node is revoked" ∷ []

abbrev pub trust_issues : Option DistributedNodeTrust → List String
trust_issues none = "node is not registered" ∷ []
trust_issues (some t) = state_issues t.state

abbrev pub trust_state : Option DistributedNodeTrust → NodeTrustState
trust_state none = NodeTrustState.unknown
trust_state (some t) = t.state

abbrev pub issues_of : String → String → String → Manager → List String
issues_of organization_id deployment_id node_id m =
    mismatch organization_id m.organization.organization_id "organization mismatch"
    ++ (mismatch deployment_id m.organization.deployment_id "deployment mismatch"
        ++ (mismatch node_id m.node.node_id "node mismatch" ++ trust_issues m.trust))

abbrev pub judged : String → String → String → Manager → DistributedNodeSecurityResult
judged organization_id deployment_id node_id m = record {
  node_id = node_id;
  organization_id = organization_id;
  deployment_id = deployment_id;
  valid = is_nil (issues_of organization_id deployment_id node_id m);
  state = trust_state m.trust;
  issues = issues_of organization_id deployment_id node_id m;
  trust = m.trust;
  requires_human_approval = true;
  executable = false;
  execution_allowed = false;
}

unfoldable pub validate : String → String → String → Manager → Result DistributedNodeSecurityResult
validate organization_id deployment_id node_id m =
    result_post_init (judged organization_id deployment_id node_id m)
