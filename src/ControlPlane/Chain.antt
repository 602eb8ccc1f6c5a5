-- ===== src/ControlPlane/Chain.antt =====
-- What `chain` returns, and that the users that `add_user` stores are under their own ids.
use yoma.Prelude.{
  suc, ◌≤◌, String, true, List, [], ◌∷◌, Option, some, ◌≡◌, refl, ◌∙◌, ap, ◌⊎◌, inl, inr, is_unique,
  length, arith, eq_refl, Option-cases,
}
use yoma.Result.{Result, ok, err, key_error}
use yoma.Dict
use yoma.Dict.{Dict, AllEntries, AllEntries-put, contains-keys}
use yoma.ControlPlane.Model.{OrganizationUser, OrganizationRole}
use yoma.ControlPlane.Plane.{Plane, add_user}
use yoma.ControlPlane.Hierarchy.{management_cycle, climb, chain}
use yoma.ControlPlane.Line.{
  ids, IsKeyed, Climbs, Ending, climb_ends, Climbs-is_unique, Climbs-bounded, Climbs-contains,
  Climbs-bounded, fresh-bounded, named,
}

-- How `chain` ends.
pub Outcome : Dict OrganizationUser → String → Result (List OrganizationUser) → Type 0
Outcome users id (err e) = (e ≡ management_cycle) ⊎ (e ≡ key_error "User does not exist.")
Outcome users id (ok []) = ⊥
Outcome users id (ok (u ∷ us)) =
    (Dict.get users id ≡ some u)
    × Climbs users (u.user_id ∷ []) u us
    × (is_unique (ids (u ∷ us)) ≡ true)
    × (length (u ∷ us) ≤ length (Dict.keys users))

module _ (users : Dict OrganizationUser) (keyed : IsKeyed users) where
  line_of :
      (id : String) (u : OrganizationUser)
      → Dict.get users id ≡ some u
      → (r : Result (List OrganizationUser))
      → climb users (suc (length (Dict.keys users))) (u.user_id ∷ []) u ≡ some r
      → Ending users (u.user_id ∷ []) u r
      → (o : Result (List OrganizationUser)) × (chain users id ≡ some o) × Outcome users id o
  unfolding chain Ending Outcome
  line_of id u found (err e) ends bad = (err e, rw (chain, found, ends), bad)
  line_of id u found (ok us) ends climbs = (
    ok (u ∷ us),
    rw (chain, found, ends),
    (
      found,
      climbs,
      ground (
        arith,
        Climbs-is_unique users keyed (u.user_id ∷ []) u us climbs,
        Climbs-contains users keyed (u.user_id ∷ []) u us u.user_id climbs
            (ground (arith, eq_refl u.user_id)),
      ),
      Climbs-bounded users keyed u.user_id u us
          (ap (Dict.get users) (named users keyed id u found) ∙ found) climbs,
    ),
  )

-- For users under their own ids and any id, `chain` ends: with a circle or a missing user as its
-- error, or with the user of the id and then, each the stored manager of the one before, the users up
-- to one that has no manager; no id is there twice, and there are at most as many as users.
pub chain_bounded :
    (users : Dict OrganizationUser) (id : String)
    → IsKeyed users
    → (r : Result (List OrganizationUser)) × (chain users id ≡ some r) × Outcome users id r
unfolding chain Outcome
chain_bounded users id keyed = elim (Option-cases (Dict.get users id)) [
  | inl missing ↦ (err (key_error "User does not exist."), rw (chain, missing), inr refl)
  | inr (u, found) ↦
      let (r, ends, ending) =
        climb_ends users keyed (suc (length (Dict.keys users))) (u.user_id ∷ []) u
          (omega (arith, fresh-bounded (u.user_id ∷ []) (Dict.keys users))) in
      line_of users keyed id u found r ends ending
]

-- Adding a user leaves the users under their own ids.
pub add_user-IsKeyed :
    (id org name email : String) (role : OrganizationRole) (department manager : Option String)
    (s : Plane)
    → IsKeyed s.users
    → IsKeyed (add_user id org name email role department manager s).1.users
unfolding add_user IsKeyed
add_user-IsKeyed id org name email role department manager s h =
    elim (Option-cases (Dict.get s.organizations org)) [
      | inl missing ↦ rw missing h
      | inr (o, found) ↦
          rw found (AllEntries-put (λ k (u : OrganizationUser). u.user_id ≡ k) s.users id _ h refl)
    ]
