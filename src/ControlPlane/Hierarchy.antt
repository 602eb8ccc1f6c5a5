-- ===== src/ControlPlane/Hierarchy.antt =====
-- `HierarchicalAuthorityResolver`. The loop of `chain` is on fuel.
use yoma.Prelude.{
  ℕ, zero, suc, String, List, [], ◌∷◌, Option, none, some, contains, is_empty, length,
  if◌then◌else◌,
}
use yoma.Result.{Result, ok, err, Error, value_error, ◌>>=◌}
use yoma.Dict
use yoma.Dict.{Dict}
use yoma.ControlPlane.Model.{OrganizationUser}
use yoma.ControlPlane.Plane.{find_user}

abbrev pub management_cycle : Error
management_cycle = value_error "Circular management hierarchy detected."

-- `manager_user_id`, where it is a text that is not empty.
abbrev pub truthy : Option String → Option String
truthy none = none
truthy (some id) = if is_empty id then none else some id

abbrev pub manager_of : OrganizationUser → Option String
manager_of user = truthy user.manager_user_id

module _ (users : Dict OrganizationUser) where
  abbrev pub next_by : List String → Option String → Result (Option OrganizationUser)
  next_by visited none = ok none
  next_by visited (some id) =
      if contains visited id
      then err management_cycle
      else (find_user users id >>= λ user. ok (some user))

  -- One round: the test of the loop, and the next user where it is entered.
  unfoldable pub next_above : List String → OrganizationUser → Result (Option OrganizationUser)
  next_above visited current = next_by visited (manager_of current)

  abbrev pub above :
      OrganizationUser
      → Option (Result (List OrganizationUser))
      → Option (Result (List OrganizationUser))
  above user none = none
  above user (some (err e)) = some (err e)
  above user (some (ok others)) = some (ok (user ∷ others))

  -- What the loop appends; `none` means that the fuel ran out.
  unfoldable pub climb :
      ℕ → List String → OrganizationUser → Option (Result (List OrganizationUser))
  climb zero visited current = none
  climb (suc fuel) visited current = elim (next_above visited current) [
    | err e ↦ some (err e)
    | ok found ↦ elim found [
      | none ↦ some (ok [])
      | some user ↦ above user (climb fuel (user.user_id ∷ visited) user)
    ]
  ]

  abbrev pub chain_from : ℕ → Result OrganizationUser → Option (Result (List OrganizationUser))
  chain_from fuel (err e) = some (err e)
  chain_from fuel (ok user) = above user (climb fuel (user.user_id ∷ []) user)

  -- One round for each user, and one for the test that ends the loop.
  unfoldable pub chain : String → Option (Result (List OrganizationUser))
  chain id = chain_from (suc (length (Dict.keys users))) (find_user users id)

  abbrev pub behind_first :
      Option (Result (List OrganizationUser)) → Option (Result (List OrganizationUser))
  behind_first (some (ok (user ∷ others))) = some (ok others)
  behind_first r = r

  -- `self.chain(user_id)[1:]`
  unfoldable pub approvers : String → Option (Result (List OrganizationUser))
  approvers id = behind_first (chain id)
