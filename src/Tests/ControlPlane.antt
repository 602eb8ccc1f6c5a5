-- ===== src/Tests/ControlPlane.antt =====
-- Examples for the organization control plane.
use yoma.Prelude.{map, String, ◌*◌, List, [], ◌∷◌, Option, none, some, ◌≡◌, refl, true}
use yoma.Result.{Result, ok}
use yoma.Value.{second}
use yoma.Dict
use yoma.Dict.{Dict}
use yoma.ControlPlane.Model.{OrganizationRole, EnrollmentState, NodeType, OrganizationUser}
use yoma.ControlPlane.Plane.{Plane, create_node_enrollment}
use yoma.ControlPlane.Hierarchy.{chain, approvers, climb, next_above}
use yoma.ControlPlane.Line.{IsKeyed}
use yoma.ControlPlane.Chain.{Outcome, chain_bounded}
use yoma.ControlPlane.Enrollment.{Call, enroll_all, enrolled, with_nodes, secret_enrolls_again}

abbrev user_under : String → Option String → OrganizationUser
user_under id manager = record {
  user_id = id;
  organization_id = "ORG";
  display_name = id;
  email = "";
  role = OrganizationRole.employee;
  department_id = none;
  manager_user_id = manager;
  enrollment = EnrollmentState.invited;
}

-- Ada reports to Ben, Ben to Cy, who has no manager; Di and Ed report to each other.
abbrev staff : Dict OrganizationUser
staff =
    ("ada", user_under "ada" (some "ben"))
    ∷ ("ben", user_under "ben" (some "cy"))
    ∷ ("cy", user_under "cy" (some ""))
    ∷ ("di", user_under "di" (some "ed"))
    ∷ ("ed", user_under "ed" (some "di"))
    ∷ []

chain_bounded_example :
    (r : Result (List OrganizationUser)) × (chain staff "ada" ≡ some r) × Outcome staff "ada" r
unfolding IsKeyed
chain_bounded_example = chain_bounded staff "ada" (refl, (refl, (refl, (refl, (refl, tt)))))

approvers_example :
    approvers staff "ada"
    ≡ some (ok (user_under "ben" (some "cy") ∷ user_under "cy" (some "") ∷ []))
unfolding approvers chain Dict.get climb next_above
approvers_example = refl

abbrev plane : Plane
plane = record {
  organizations =
      ("ORG", record { organization_id = "ORG"; name = "Org"; created_at = 0; active = true }) ∷ [];
  users = staff;
  departments = [];
  rules = [];
  nodes = [];
  tokens =
      (
        "enroll_0",
        record {
          token_id = "enroll_0";
          organization_id = "ORG";
          user_id = some "ada";
          node_type = NodeType.employee;
          token_hash = "another";
          expires_at = 86400 * second;
        },
      )
      ∷ [];
}

abbrev two_devices : List Call
two_devices =
    record { node_id = "node_1"; time = 10; device_name = "laptop" }
    ∷ record { node_id = "node_2"; time = 3600 * second; device_name = "stranger" }
    ∷ []

secret_enrolls_again_example :
    (made : Plane) × (create_node_enrollment
        (λ text. text)
        "enroll_1"
        0
        "secret"
        "ORG"
        NodeType.edge
        none
        plane
      ≡ (ok "secret", made))
    × (enroll_all (λ text. text) "secret" two_devices made ≡ (
      map (λ c. ok (enrolled "ORG" none NodeType.edge c)) two_devices,
      record made { nodes = with_nodes made.nodes (enrolled "ORG" none NodeType.edge) two_devices },
    ))
    × (made.nodes ≡ [])
unfolding Dict.get
secret_enrolls_again_example =
    secret_enrolls_again (λ text. text) "enroll_1" 0 "secret" "ORG" NodeType.edge none
      (record { organization_id = "ORG"; name = "Org"; created_at = 0; active = true }) two_devices
      plane refl (refl, tt) (refl, (refl, tt))
