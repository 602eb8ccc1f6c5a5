-- ===== src/ControlPlane/Plane.antt =====
-- `OrganizationControlPlane`. What the library draws or reads, the id of a new object, a secret, and
-- the time, is an argument of the method; `sha256` is the hash of a text.
use yoma.Prelude.{
  ℕ, ◌+◌, ◌*◌, String, Bool, true, List, [], ◌∷◌, Option, none, some, ◌==◌, ◌&&◌, is_blank, strip,
  keep, ltb, eqb,
}
use yoma.Result.{Result, ok, err, value_error, key_error, permission_error, raise_if}
use yoma.Exec.{Exec, return, lift, gets, modify, ◌>>=◌, ◌>>◌}
use yoma.Dict
use yoma.Dict.{Dict}
use yoma.Value.{second}
use yoma.ControlPlane.Model.{
  OrganizationRole, NodeType, NodeState, EnrollmentState, role_number, Organization,
  OrganizationUser, Department, AuthorityRule, YomaNode, EnrollmentToken,
}

pub record Plane : Type 0 where
  pub organizations : Dict Organization
  pub users : Dict OrganizationUser
  pub departments : Dict Department
  pub rules : Dict AuthorityRule
  pub nodes : Dict YomaNode
  pub tokens : Dict EnrollmentToken

-- `if key not in d: raise KeyError(message)`, and `d[key]`.
abbrev pub required {ℓ} : {V : Type ℓ} → String → Option V → Result V
required message none = err (key_error message)
required message (some v) = ok v

abbrev pub require_organization : String → Plane → Result Organization
require_organization id s = required "Organization does not exist." (Dict.get s.organizations id)

abbrev pub find_user : Dict OrganizationUser → String → Result OrganizationUser
find_user users id = required "User does not exist." (Dict.get users id)

abbrev pub require_user : String → Plane → Result OrganizationUser
require_user id s = find_user s.users id

-- A function of the state that may raise.
abbrev pub read {ℓ} : {A : Type ℓ} → (Plane → Result A) → Exec Plane A
read f s = (f s, s)

unfoldable pub create_organization : String → ℕ → String → Exec Plane Organization
create_organization id now name = do
  lift (raise_if (is_blank name) (value_error "Organization name is required."))
  let o : Organization = record {
    organization_id = id;
    name = strip name;
    created_at = now;
    active = true;
  }
  modify (λ s. record s { organizations = Dict.put s.organizations id o })
  return o

unfoldable pub add_user :
    String
    → String
    → String
    → String
    → OrganizationRole
    → Option String
    → Option String
    → Exec Plane OrganizationUser
add_user id organization_id display_name email role department_id manager_user_id = do
  read (require_organization organization_id)
  let user : OrganizationUser = record {
    user_id = id;
    organization_id = organization_id;
    display_name = strip display_name;
    email = strip email;
    role = role;
    department_id = department_id;
    manager_user_id = manager_user_id;
    enrollment = EnrollmentState.invited;
  }
  modify (λ s. record s { users = Dict.put s.users id user })
  return user

unfoldable pub add_department : String → String → String → Option String → Exec Plane Department
add_department id organization_id name manager_user_id = do
  read (require_organization organization_id)
  let department : Department = record {
    department_id = id;
    organization_id = organization_id;
    name = strip name;
    manager_user_id = manager_user_id;
  }
  modify (λ s. record s { departments = Dict.put s.departments id department })
  return department

unfoldable pub add_authority_rule :
    String → String → OrganizationRole → String → Bool → Option ℕ → Exec Plane AuthorityRule
add_authority_rule id organization_id role permission approval_required approval_limit = do
  read (require_organization organization_id)
  let rule : AuthorityRule = record {
    rule_id = id;
    organization_id = organization_id;
    role = role;
    permission = permission;
    approval_required = approval_required;
    approval_limit = approval_limit;
  }
  modify (λ s. record s { rules = Dict.put s.rules id rule })
  return rule

abbrev pub is_allowed : OrganizationUser → String → AuthorityRule → Bool
is_allowed user permission rule =
    rule.organization_id == user.organization_id
    && eqb (role_number rule.role) (role_number user.role)
    && rule.permission == permission

unfoldable pub authority_for : String → String → Plane → Result (List AuthorityRule)
authority_for user_id permission s = granted (require_user user_id s)
  where
    granted : Result OrganizationUser → Result (List AuthorityRule)
    granted (err e) = err e
    granted (ok user) = ok (keep (is_allowed user permission) (Dict.values s.rules))

-- `secrets` gives the secret `raw`; the token keeps its hash.
module _ (sha256 : String → String) where
  abbrev pub token_of : String → ℕ → String → String → Option String → NodeType → EnrollmentToken
  token_of id now raw organization_id user_id node_type = record {
    token_id = id;
    organization_id = organization_id;
    user_id = user_id;
    node_type = node_type;
    token_hash = sha256 raw;
    expires_at = now + 86400 * second;
  }

  abbrev pub store_token : EnrollmentToken → Exec Plane (Unit {0})
  store_token t = modify (λ s. record s { tokens = Dict.put s.tokens t.token_id t })

  unfoldable pub invite_user : String → ℕ → String → String → Exec Plane String
  invite_user id now raw user_id = do
    user ← read (require_user user_id)
    store_token (token_of id now raw user.organization_id (some user.user_id) NodeType.employee)
    return raw

  unfoldable pub create_node_enrollment :
      String → ℕ → String → String → NodeType → Option String → Exec Plane String
  create_node_enrollment id now raw organization_id node_type user_id = do
    read (require_organization organization_id)
    store_token (token_of id now raw organization_id user_id node_type)
    return raw

  abbrev pub is_valid : String → ℕ → EnrollmentToken → Bool
  is_valid token_value now t = t.token_hash == sha256 token_value && ltb now t.expires_at

  abbrev pub node_of : String → String → EnrollmentToken → YomaNode
  node_of id device_name t = record {
    node_id = id;
    organization_id = t.organization_id;
    user_id = t.user_id;
    node_type = t.node_type;
    device_name = device_name;
    state = NodeState.active;
  }

  abbrev pub enroll_with : String → String → List EnrollmentToken → Exec Plane YomaNode
  enroll_with id device_name [] =
      lift (err (permission_error "Invalid or expired enrollment token."))
  enroll_with id device_name (t ∷ others) = do
    modify (λ s. record s { nodes = Dict.put s.nodes id (node_of id device_name t) })
    return (node_of id device_name t)

  unfoldable pub enroll_node : String → ℕ → String → String → Exec Plane YomaNode
  enroll_node id now token_value device_name = do
    found ← gets (λ s. keep (is_valid token_value now) (Dict.values s.tokens))
    enroll_with id device_name found
