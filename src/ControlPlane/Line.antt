-- ===== src/ControlPlane/Line.antt =====
-- The line of managers that `chain` returns: it ends, it is short, and it leads upward.
use yoma.Prelude.{
  ℕ, zero, suc, ◌≤◌, ◌<◌, String, true, false, not, List, [], ◌∷◌, Option, none, some, ◌≡◌, refl,
  sym, ◌∙◌, ap, ◌⊎◌, inl, inr, contains, is_unique, length, keep, arith, ◌==◌, eq_iff, eq_refl,
  Bool-cases, length-keep, Option-cases, is_some,
}
use yoma.Result.{Result, ok, err, Error, key_error}
use yoma.Dict
use yoma.Dict.{Dict, AllEntries, AllEntries-get, contains-keys}
use yoma.ControlPlane.Model.{OrganizationUser}
use yoma.ControlPlane.Plane.{find_user, required}
use yoma.ControlPlane.Hierarchy.{management_cycle, manager_of, next_above, next_by, climb}

abbrev pub ids : List OrganizationUser → List String
ids [] = []
ids (u ∷ us) = u.user_id ∷ ids us

-- Every user is stored under its own id.
unfoldable pub IsKeyed : Dict OrganizationUser → Type 0
IsKeyed users = AllEntries (λ id (u : OrganizationUser). u.user_id ≡ id) users

-- How many ids are not visited.
abbrev pub fresh : List String → List String → ℕ
fresh visited xs = length (keep (λ k. not (contains visited k)) xs)

pub fresh-bounded : (visited xs : List String) → fresh visited xs ≤ length xs
fresh-bounded visited xs = length-keep (λ k. not (contains visited k)) xs

fresh_grows : (visited xs : List String) (id : String) → fresh (id ∷ visited) xs ≤ fresh visited xs
fresh_grows visited [] id = omega arith
fresh_grows visited (x ∷ xs) id = ground (arith, fresh_grows visited xs id)

fresh_drops :
    (visited xs : List String) (id : String)
    → contains xs id ≡ true
    → contains visited id ≡ false
    → fresh (id ∷ visited) xs < fresh visited xs
fresh_drops visited [] id h new = cc
fresh_drops visited (x ∷ xs) id h new = elim (Bool-cases (id == x)) [
  | inl same ↦ ground (
    arith,
    same,
    eq_refl id,
    fresh_grows visited xs id,
    new,
    ap (λ z. contains visited z) ((eq_iff id x).0 same),
    ap (λ z. z == id) ((eq_iff id x).0 same),
  )
  | inr other ↦ ground (
    arith,
    h,
    other,
    eq_iff id x,
    eq_iff x id,
    fresh_drops visited xs id (ground (arith, h, other)) new,
  )
]

module _ (users : Dict OrganizationUser) where
  -- The users above `u` up to the top: each is the stored manager of the one before, and new.
  unfoldable pub Climbs : List String → OrganizationUser → List OrganizationUser → Type 0
  Climbs visited u [] = manager_of u ≡ none
  Climbs visited u (v ∷ vs) =
      (manager_of u ≡ some v.user_id)
      × (contains visited v.user_id ≡ false)
      × (Dict.get users v.user_id ≡ some v)
      × Climbs (v.user_id ∷ visited) v vs

  -- How the loop ends.
  unfoldable pub Ending : List String → OrganizationUser → Result (List OrganizationUser) → Type 0
  Ending visited u (err e) = (e ≡ management_cycle) ⊎ (e ≡ key_error "User does not exist.")
  Ending visited u (ok us) = Climbs visited u us

  -- What one round finds.
  data Round (visited : List String) (u : OrganizationUser) : Type 0 where
    top : manager_of u ≡ none → next_above users visited u ≡ ok none → Round visited u
    stopped :
        (e : Error)
        → ((e ≡ management_cycle) ⊎ (e ≡ key_error "User does not exist."))
        → next_above users visited u ≡ err e
        → Round visited u
    up :
        (v : OrganizationUser)
        → manager_of u ≡ some v.user_id
        → contains visited v.user_id ≡ false
        → Dict.get users v.user_id ≡ some v
        → next_above users visited u ≡ ok (some v)
        → Round visited u

  find_user-cases :
      (id : String)
      → (find_user users id ≡ err (key_error "User does not exist."))
        ⊎ ((v : OrganizationUser) × (Dict.get users id ≡ some v) × (find_user users id ≡ ok v))
  find_user-cases id = elim (Option-cases (Dict.get users id)) [
    | inl missing ↦ inl (ap (required "User does not exist.") missing)
    | inr (v, found) ↦ inr (v, found, ap (required "User does not exist.") found)
  ]

module _ (users : Dict OrganizationUser) (keyed : IsKeyed users) where
  pub named : (id : String) (v : OrganizationUser) → Dict.get users id ≡ some v → v.user_id ≡ id
  unfolding IsKeyed
  named id v found =
      AllEntries-get (λ k (u : OrganizationUser). u.user_id ≡ k) users id v keyed found

  next_found :
      (visited : List String) (u : OrganizationUser) (m : Option String)
      → manager_of u ≡ m
      → Round users visited u
  unfolding next_above
  next_found visited u none e = top e (ap (next_by users visited) e)
  next_found visited u (some id) e = elim (Bool-cases (contains visited id)) [
    | inl again ↦ stopped management_cycle (inl refl) (rw (e, again))
    | inr new ↦ elim (find_user-cases users id) [
      | inl missing ↦ stopped _ (inr refl) (rw (e, new, missing))
      | inr (v, found, is) ↦
          up v (e ∙ ap some (sym (named id v found)))
            (ap (contains visited) (named id v found) ∙ new)
            (ap (Dict.get users) (named id v found) ∙ found) (rw (e, new, is))
    ]
  ]

  add_above :
      (fuel : ℕ) (visited : List String) (u v : OrganizationUser)
      → manager_of u ≡ some v.user_id
      → contains visited v.user_id ≡ false
      → Dict.get users v.user_id ≡ some v
      → next_above users visited u ≡ ok (some v)
      → (r : Result (List OrganizationUser)) → climb users fuel (v.user_id ∷ visited) v ≡ some r
      → Ending users (v.user_id ∷ visited) v r
      → (o : Result (List OrganizationUser)) × (climb users (suc fuel) visited u ≡ some o)
        × Ending users visited u o
  unfolding climb Ending Climbs
  add_above fuel visited u v manages new found is (err e) ends ending =
      (err e, rw (climb, is, ends), ending)
  add_above fuel visited u v manages new found is (ok vs) ends ending =
      (ok (v ∷ vs), rw (climb, is, ends), (manages, new, found, ending))

  pub climb_ends :
      (fuel : ℕ) (visited : List String) (u : OrganizationUser)
      → fresh visited (Dict.keys users) < fuel
      → (r : Result (List OrganizationUser)) × (climb users fuel visited u ≡ some r)
        × Ending users visited u r
  unfolding climb Ending Climbs
  climb_ends zero visited u h = absurd (omega arith)
  climb_ends (suc fuel) visited u h = elim (next_found visited u (manager_of u) refl) [
    | top none_above is ↦ (ok [], rw (climb, is), none_above)
    | stopped e bad is ↦ (err e, rw (climb, is), bad)
    | up v manages new found is ↦
        let known : contains (Dict.keys users) v.user_id ≡ true =
          contains-keys users v.user_id ∙ ap is_some found in
        let (r, ends, ending) =
          climb_ends fuel (v.user_id ∷ visited) v
            (omega (arith, fresh_drops visited (Dict.keys users) v.user_id known new)) in
        add_above fuel visited u v manages new found is r ends ending
  ]

  pub Climbs-contains :
      (visited : List String) (u : OrganizationUser) (us : List OrganizationUser) (id : String)
      → Climbs users visited u us
      → contains visited id ≡ true
      → contains (ids us) id ≡ false
  unfolding Climbs
  Climbs-contains visited u [] id h old = refl
  Climbs-contains visited u (v ∷ vs) id (manages, new, found, h) old =
      elim (Bool-cases (id == v.user_id)) [
        | inl same ↦ cc (ap (contains visited) ((eq_iff id v.user_id).0 same))
        | inr other ↦
            ground
              (arith, other, Climbs-contains (v.user_id ∷ visited) v vs id h (ground (arith, old)))
      ]

  pub Climbs-is_unique :
      (visited : List String) (u : OrganizationUser) (us : List OrganizationUser)
      → Climbs users visited u us
      → is_unique (ids us) ≡ true
  unfolding Climbs
  Climbs-is_unique visited u [] h = refl
  Climbs-is_unique visited u (v ∷ vs) (manages, new, found, h) = ground (
    arith,
    eq_refl v.user_id,
    Climbs-contains (v.user_id ∷ visited) v vs v.user_id h (ground (arith, eq_refl v.user_id)),
    Climbs-is_unique (v.user_id ∷ visited) v vs h,
  )

  Climbs-length :
      (visited : List String) (u : OrganizationUser) (us : List OrganizationUser)
      → Climbs users visited u us
      → length us ≤ fresh visited (Dict.keys users)
  unfolding Climbs
  Climbs-length visited u [] h = omega arith
  Climbs-length visited u (v ∷ vs) (manages, new, found, h) = omega (
    arith,
    Climbs-length (v.user_id ∷ visited) v vs h,
    fresh_drops visited (Dict.keys users) v.user_id
        (contains-keys users v.user_id ∙ ap is_some found) new,
  )

  -- A user's own line is no longer than the users are many.
  pub Climbs-bounded :
      (id : String) (u : OrganizationUser) (us : List OrganizationUser)
      → Dict.get users id ≡ some u
      → Climbs users (id ∷ []) u us
      → length us < length (Dict.keys users)
  Climbs-bounded id u us found h = omega (
    arith,
    Climbs-length (id ∷ []) u us h,
    fresh_drops [] (Dict.keys users) id (contains-keys users id ∙ ap is_some found) refl,
    fresh-bounded [] (Dict.keys users),
  )
