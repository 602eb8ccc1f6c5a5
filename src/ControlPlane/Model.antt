-- ===== src/ControlPlane/Model.antt =====
-- The data classes. Times are counted in microseconds and limits in thousandths.
use yoma.Prelude.{ℕ, String, Bool, Option, true, false}

pub data OrganizationRole : Type 0 where
  founder ceo director administrator hr finance manager team_lead employee read_only :
      OrganizationRole

pub data NodeType : Type 0 where
  server admin executive employee edge : NodeType

pub data NodeState : Type 0 where
  pending active offline revoked : NodeState

pub data EnrollmentState : Type 0 where
  invited enrolled suspended revoked : EnrollmentState

-- The number of a role, for the equality of roles.
abbrev pub role_number : OrganizationRole → ℕ
role_number founder = 0
role_number ceo = 1
role_number director = 2
role_number administrator = 3
role_number hr = 4
role_number finance = 5
role_number manager = 6
role_number team_lead = 7
role_number OrganizationRole.employee = 8
role_number read_only = 9

abbrev pub is_active : NodeState → Bool
is_active active = true
is_active _ = false

pub record Organization : Type 0 where
  pub organization_id : String
  pub name : String
  pub created_at : ℕ
  pub active : Bool

pub record OrganizationUser : Type 0 where
  pub user_id : String
  pub organization_id : String
  pub display_name : String
  pub email : String
  pub role : OrganizationRole
  pub department_id : Option String
  pub manager_user_id : Option String
  pub enrollment : EnrollmentState

pub record Department : Type 0 where
  pub department_id : String
  pub organization_id : String
  pub name : String
  pub manager_user_id : Option String

pub record AuthorityRule : Type 0 where
  pub rule_id : String
  pub organization_id : String
  pub role : OrganizationRole
  pub permission : String
  pub approval_required : Bool
  pub approval_limit : Option ℕ

pub record YomaNode : Type 0 where
  pub node_id : String
  pub organization_id : String
  pub user_id : Option String
  pub node_type : NodeType
  pub device_name : String
  pub state : NodeState

pub record EnrollmentToken : Type 0 where
  pub token_id : String
  pub organization_id : String
  pub user_id : Option String
  pub node_type : NodeType
  pub token_hash : String
  pub expires_at : ℕ
