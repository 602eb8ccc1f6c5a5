-- ===== src/NodeTrust/Standing.antt =====
-- What `validate` says after any calls: the last of them decides.
use yoma.Prelude.{
  String, false, List, none, ◌≡◌, sym, ◌∙◌, ap, is_empty, is_nil, ◌==◌, ◌&&◌, ◌++◌, Bool-cases, inl,
  inr,
}
use yoma.Result.{Error, ok, err}
use yoma.Sync.Model.{DistributedOrganizationIdentity, DistributedNodeIdentity, belongs_to}
use yoma.NodeTrust.Model.{NodeTrustState, DistributedNodeSecurityResult, result_post_init}
use yoma.NodeTrust.Manager.{Manager, new, validate, judged, issues_of, trust_issues, mismatch}
use yoma.NodeTrust.Calls.{
  Op, perform_all, last_state, is_trusted, IsNode, with_trust, perform_all_lem, valid_lem,
}

is_nil-mismatch :
    (given own issue : String) (rest : List String)
    → is_nil (mismatch given own issue ++ rest) ≡ (given == own && is_nil rest)
is_nil-mismatch given own issue rest = elim (Bool-cases (given == own)) [
  | inl same ↦ rw same
  | inr other ↦ rw other
]

issues_lem :
    (org deployment node : String) (m : Manager)
    → is_nil (issues_of org deployment node m) ≡ (
        org == m.organization.organization_id
        && (deployment == m.organization.deployment_id
            && (node == m.node.node_id && is_nil (trust_issues m.trust))))
issues_lem org deployment node m =
    is_nil-mismatch org m.organization.organization_id "organization mismatch" _
    ∙ ap (λ z. org == m.organization.organization_id && z)
        (is_nil-mismatch deployment m.organization.deployment_id "deployment mismatch" _
          ∙ ap (λ z. deployment == m.organization.deployment_id && z)
              (is_nil-mismatch node m.node.node_id "node mismatch" (trust_issues m.trust)))

ok_inj : {a b : Manager} → ok a ≡ ok b → a ≡ b
ok_inj h = cc

new_lem :
    (o : DistributedOrganizationIdentity) (n : DistributedNodeIdentity) (m : Manager)
    → new o n ≡ ok m
    → m ≡ record { organization = o; node = n; trust = none }
unfolding new
new_lem o n m h = elim (Bool-cases (belongs_to n o)) [
  | inl belongs ↦ sym (ok_inj (rw belongs at h))
  | inr strange ↦ absurd (refused (rw strange at h))
]
  where
    refused : {e : Error} → err e ≡ ok m → ⊥
    refused h = cc

-- For a node with ids that belongs to the organization, any calls of register, trust_node, suspend_node
-- and revoke_node, and any ids that are not empty, validate returns; what it returns is valid exactly if
-- the ids are the organization's, the deployment's and the node's and the last call was trust_node,
-- also behind revoke_node.
pub last_call_decides :
    (o : DistributedOrganizationIdentity) (n : DistributedNodeIdentity) (m : Manager)
    (ops : List Op) (org deployment node : String)
    → IsNode n
    → new o n ≡ ok m
    → is_empty org ≡ false
    → is_empty deployment ≡ false
    → is_empty node ≡ false
    → (r : DistributedNodeSecurityResult) × (validate org deployment node (perform_all ops m)
        ≡ ok r)
      × (r.valid ≡ (
          org == o.organization_id
          && (deployment == o.deployment_id
              && (node == n.node_id && is_trusted (last_state NodeTrustState.unknown ops)))))
      × (r.state ≡ last_state NodeTrustState.unknown ops)
unfolding new validate result_post_init
last_call_decides o n m ops org deployment node valid made a b c =
    let fresh : Manager = record { organization = o; node = n; trust = none } in
    let is_fresh : m ≡ fresh = new_lem o n m made in
    let (end, ends, last) = perform_all_lem ops fresh none valid tt in
    (
      judged org deployment node (with_trust end fresh),
      rw (is_fresh, ends, a, b, c),
      (issues_lem org deployment node (with_trust end fresh)
          ∙ ap
              (λ z.
                org == o.organization_id
                && (deployment == o.deployment_id && (node == n.node_id && z)))
              (valid_lem end ∙ ap is_trusted last)),
      last,
    )
