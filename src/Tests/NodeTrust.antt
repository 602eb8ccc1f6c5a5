-- ===== src/Tests/NodeTrust.antt =====
-- Examples for the trust of nodes.
use yoma.Prelude.{is_blank, true, ◌≡◌, refl, List, [], ◌∷◌, none}
use yoma.Result.{ok}
use yoma.Sync.Model.{DistributedOrganizationIdentity, DistributedNodeIdentity}
use yoma.NodeTrust.Model.{NodeTrustState, DistributedNodeSecurityResult}
use yoma.NodeTrust.Manager.{Manager, new, validate}
use yoma.NodeTrust.Calls.{Op, perform_all}
use yoma.NodeTrust.Standing.{last_call_decides}

abbrev organization : DistributedOrganizationIdentity
organization = record {
  organization_id = "ORG";
  organization_name = "Org";
  deployment_id = "DEP";
  edition = "distributed";
}

abbrev node : DistributedNodeIdentity
node = record {
  node_id = "PC-1";
  organization_id = "ORG";
  deployment_id = "DEP";
  node_name = "Desk";
  node_type = "employee_pc";
}

abbrev manager : Manager
manager = record { organization = organization; node = node; trust = none }

-- Revoked, and trusted again.
abbrev calls : List Op
calls = Op.trusts "first" 1 2 ∷ Op.revokes "lost" 3 4 ∷ Op.trusts "found" 5 6 ∷ []

last_call_decides_example :
    (r : DistributedNodeSecurityResult) × (validate "ORG" "DEP" "PC-1" (perform_all calls manager)
      ≡ ok r)
    × (r.valid ≡ true)
    × (r.state ≡ NodeTrustState.trusted)
unfolding new is_blank
last_call_decides_example =
    last_call_decides organization node manager calls "ORG" "DEP" "PC-1"
      (record { node_id = refl; organization_id = refl; deployment_id = refl }) refl refl refl refl
