-- ===== src/ControlPlane/Queries.antt =====
-- The questions about a control plane: who may request what, and the counts of the dashboard.
use yoma.Prelude.{ℕ, String, Bool, not, List, is_nil, keep, length, ◌==◌}
use yoma.Result.{Result, ok, ◌>>=◌}
use yoma.Dict
use yoma.ControlPlane.Model.{is_active, OrganizationUser, Department, YomaNode}
use yoma.ControlPlane.Plane.{Plane, require_organization, authority_for}

unfoldable pub can_request : String → String → Plane → Result Bool
can_request user_id permission s =
    authority_for user_id permission s >>= λ rules. ok (not (is_nil rules))

-- The counts of the dashboard; its other entries are constants.
pub record Dashboard : Type 0 where
  pub users : ℕ
  pub departments : ℕ
  pub nodes : ℕ
  pub active_nodes : ℕ

abbrev nodes_of : String → Plane → List YomaNode
nodes_of id s = keep (λ (n : YomaNode). n.organization_id == id) (Dict.values s.nodes)

unfoldable pub dashboard : String → Plane → Result Dashboard
dashboard id s = require_organization id s >>= λ o. ok (record {
  users = length (keep (λ (u : OrganizationUser). u.organization_id == id) (Dict.values s.users));
  departments =
      length (keep (λ (d : Department). d.organization_id == id) (Dict.values s.departments));
  nodes = length (nodes_of id s);
  active_nodes = length (keep (λ (n : YomaNode). is_active n.state) (nodes_of id s));
})
