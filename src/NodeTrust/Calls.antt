-- ===== src/NodeTrust/Calls.antt =====
-- Sequences of calls on the manager, and the trust that they leave.
use yoma.Prelude.{
  ℕ, String, Bool, true, false, List, [], ◌∷◌, Option, none, some, ◌≡◌, refl, ◌∙◌, ap, is_blank,
  is_nil,
}
use yoma.Result.{Result, ok}
use yoma.Sync.Model.{DistributedNodeIdentity}
use yoma.NodeTrust.Model.{NodeTrustState, DistributedNodeTrust, trust_post_init, is_naive}
use yoma.NodeTrust.Manager.{
  Manager, register, trust_node, suspend_node, revoke_node, assign, move_to, trust_issues,
  state_issues, moved, registered, trust_state,
}

-- A call, with its reason and what the clock gives.
pub data Op : Type 0 where
  registers : ℕ → Op
  trusts suspends revokes : String → ℕ → ℕ → Op

abbrev pub perform : Op → Manager → Result DistributedNodeTrust × Manager
perform (registers now) = register now
perform (trusts reason first now) = trust_node reason first now
perform (suspends reason first now) = suspend_node reason first now
perform (revokes reason first now) = revoke_node reason first now

abbrev pub perform_all : List Op → Manager → Manager
perform_all [] m = m
perform_all (op ∷ ops) m = perform_all ops (perform op m).1

abbrev pub state_after : Op → NodeTrustState
state_after (registers now) = NodeTrustState.unknown
state_after (trusts reason first now) = NodeTrustState.trusted
state_after (suspends reason first now) = NodeTrustState.suspended
state_after (revokes reason first now) = NodeTrustState.revoked

-- The state that the last call names, and at first `state`.
abbrev pub last_state : NodeTrustState → List Op → NodeTrustState
last_state state [] = state
last_state state (op ∷ ops) = last_state (state_after op) ops

abbrev pub is_trusted : NodeTrustState → Bool
is_trusted NodeTrustState.trusted = true
is_trusted _ = false

pub record IsTrust (t : DistributedNodeTrust) : Type 0 where
  pub node_id : is_blank t.node_id ≡ false
  pub organization_id : is_blank t.organization_id ≡ false
  pub deployment_id : is_blank t.deployment_id ≡ false
  pub aware : is_naive t.registered_at ≡ false

-- A node as its constructor accepts it.
pub record IsNode (n : DistributedNodeIdentity) : Type 0 where
  pub node_id : is_blank n.node_id ≡ false
  pub organization_id : is_blank n.organization_id ≡ false
  pub deployment_id : is_blank n.deployment_id ≡ false

abbrev pub HasTrust : Option DistributedNodeTrust → Type 0
HasTrust none = Unit
HasTrust (some t) = IsTrust t

assign_lem :
    (t : DistributedNodeTrust) (m : Manager)
    → IsTrust t
    → is_naive t.updated_at ≡ false
    → assign t m ≡ (ok t, record m { trust = some t })
unfolding trust_post_init
assign_lem t m h now = rw (h.node_id, h.organization_id, h.deployment_id, h.aware, now)

moved-IsTrust :
    (state : NodeTrustState) (reason : String) (now : ℕ) (t : DistributedNodeTrust)
    → IsTrust t
    → IsTrust (moved state reason now t)
moved-IsTrust state reason now t h = record {
  node_id = h.node_id;
  organization_id = h.organization_id;
  deployment_id = h.deployment_id;
  aware = h.aware;
}

registered-IsTrust : (now : ℕ) (n : DistributedNodeIdentity) → IsNode n → IsTrust (registered now n)
registered-IsTrust now n h = record {
  node_id = h.node_id;
  organization_id = h.organization_id;
  deployment_id = h.deployment_id;
  aware = refl;
}

-- The manager with the trust `t`.
abbrev pub with_trust : Option DistributedNodeTrust → Manager → Manager
with_trust t m = record m { trust = t }

Stored : Option DistributedNodeTrust → NodeTrustState → Op → Manager → Type 0
Stored tr state op m =
    (t : DistributedNodeTrust) × (perform op (with_trust tr m) ≡ (ok t, with_trust (some t) m))
    × (t.state ≡ state)
    × IsTrust t

move_to_lem :
    (state : NodeTrustState) (reason : String) (first now : ℕ) (m : Manager)
    (tr : Option DistributedNodeTrust)
    → IsNode m.node
    → HasTrust tr
    → (t : DistributedNodeTrust) × (move_to state reason first now (with_trust tr m)
        ≡ (ok t, with_trust (some t) m))
      × (t.state ≡ state)
      × IsTrust t
unfolding register
move_to_lem state reason first now m none node h =
    let made = registered first m.node in
    let good = registered-IsTrust first m.node node in
    (
      moved state reason now made,
      rw (assign_lem made (with_trust none m) good refl) (
          assign_lem (moved state reason now made) (with_trust (some made) m)
            (moved-IsTrust state reason now made good) refl),
      refl,
      moved-IsTrust state reason now made good,
    )
move_to_lem state reason first now m (some t) node h = (
  moved state reason now t,
  assign_lem (moved state reason now t) (with_trust (some t) m) (moved-IsTrust state reason now t h)
      refl,
  refl,
  moved-IsTrust state reason now t h,
)

perform_lem :
    (op : Op) (m : Manager) (tr : Option DistributedNodeTrust)
    → IsNode m.node
    → HasTrust tr
    → Stored tr (state_after op) op m
unfolding Stored register trust_node suspend_node revoke_node
perform_lem (registers now) m tr node h = (
  registered now m.node,
  assign_lem (registered now m.node) (with_trust tr m) (registered-IsTrust now m.node node) refl,
  refl,
  registered-IsTrust now m.node node,
)
perform_lem (trusts reason first now) m tr node h = move_to_lem _ reason first now m tr node h
perform_lem (suspends reason first now) m tr node h = move_to_lem _ reason first now m tr node h
perform_lem (revokes reason first now) m tr node h = move_to_lem _ reason first now m tr node h

-- Any calls leave a trust in the state that the last of them names.
pub perform_all_lem :
    (ops : List Op) (m : Manager) (tr : Option DistributedNodeTrust)
    → IsNode m.node
    → HasTrust tr
    → (end : Option DistributedNodeTrust) × (perform_all ops (with_trust tr m) ≡ with_trust end m)
      × (trust_state end ≡ last_state (trust_state tr) ops)
unfolding Stored
perform_all_lem [] m tr node h = (tr, refl, refl)
perform_all_lem (op ∷ ops) m tr node h =
    let (t, does, state, good) = perform_lem op m tr node h in
    let (end, ends, last) = perform_all_lem ops m (some t) node good in
    (end, ap (λ z. perform_all ops z.1) does ∙ ends, last ∙ ap (λ z. last_state z ops) state)

pub valid_lem :
    (tr : Option DistributedNodeTrust) → is_nil (trust_issues tr) ≡ is_trusted (trust_state tr)
valid_lem none = refl
valid_lem (some t) = of_state t.state
  where
    of_state : (s : NodeTrustState) → is_nil (state_issues s) ≡ is_trusted s
    of_state NodeTrustState.unknown = refl
    of_state NodeTrustState.trusted = refl
    of_state NodeTrustState.suspended = refl
    of_state NodeTrustState.revoked = refl
