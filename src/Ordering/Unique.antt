-- ===== src/Ordering/Unique.antt =====
-- Plans whose actions have different ids: the lookup has each id at its place.
use yoma.Prelude.{
  length, length-append, ◌+◌, ◌≤◌, suc, eqb, String, false, Bool-cases, inl, inr, ◌≡◌, refl, true,
  List, [], ◌∷◌, ◌++◌, is_unique, arith, ap, sym, ◌∙◌, if◌then◌else◌,
}
use mathlib.Core.List.{append_assoc, append-nil}
use yoma.Dict
use yoma.Dict.{Dict, contains-keys, is_unique-middle}
use yoma.MultiAction.Model.{MultiAction, action_ids}
use yoma.Ordering.Engine.{index, action_lookup}

keys-index {ℓ} :
    {V : Type ℓ} (f : MultiAction → V) (d : Dict V) (actions : List MultiAction)
    → is_unique (Dict.keys d ++ action_ids actions) ≡ true
    → Dict.keys (index f d actions) ≡ Dict.keys d ++ action_ids actions
keys-index f d [] h = sym (append-nil (Dict.keys d))
keys-index f d (a ∷ actions) h =
    let same : Dict.keys (Dict.put d a.action_id (f a)) ++ action_ids actions
        ≡ Dict.keys d ++ a.action_id ∷ action_ids actions =
      ap (λ ks. ks ++ action_ids actions)
        (Dict.keys-put d a.action_id (f a)
          ∙ ap (λ b. if b then Dict.keys d else Dict.keys d ++ a.action_id ∷ [])
              (sym (contains-keys d a.action_id)
                ∙ is_unique-middle (Dict.keys d) a.action_id (action_ids actions) h))
      ∙ append_assoc (Dict.keys d) (a.action_id ∷ []) (action_ids actions) in
    keys-index f (Dict.put d a.action_id (f a)) actions (ap is_unique same ∙ h) ∙ same

-- With different ids, the ids of the lookup are those of the actions, in their order.
pub keys-lookup :
    (actions : List MultiAction)
    → is_unique (action_ids actions) ≡ true
    → Dict.keys (action_lookup actions) ≡ action_ids actions
keys-lookup actions h = keys-index (λ a. a) [] actions h

pub length-action_ids : (actions : List MultiAction) → length (action_ids actions) ≡ length actions
length-action_ids [] = refl
length-action_ids (a ∷ actions) = omega (arith, length-action_ids actions)

keys-put_known {ℓ} :
    {V : Type ℓ} (d : Dict V) (k : String) (v : V)
    → Dict.has d k ≡ true
    → Dict.keys (Dict.put d k v) ≡ Dict.keys d
keys-put_known d k v h =
    Dict.keys-put d k v ∙ ap (λ b. if b then Dict.keys d else Dict.keys d ++ k ∷ []) h

keys-put_new {ℓ} :
    {V : Type ℓ} (d : Dict V) (k : String) (v : V)
    → Dict.has d k ≡ false
    → Dict.keys (Dict.put d k v) ≡ Dict.keys d ++ k ∷ []
keys-put_new d k v h =
    Dict.keys-put d k v ∙ ap (λ b. if b then Dict.keys d else Dict.keys d ++ k ∷ []) h

length-put {ℓ} :
    {V : Type ℓ} (d : Dict V) (k : String) (v : V)
    → length (Dict.keys (Dict.put d k v)) ≤ suc (length (Dict.keys d))
length-put d k v = elim (Bool-cases (Dict.has d k)) [
  | inl there ↦ omega (arith, ap length (keys-put_known d k v there))
  | inr new ↦
      omega (arith, ap length (keys-put_new d k v new), length-append (Dict.keys d) (k ∷ []))
]

length-index {ℓ} :
    {V : Type ℓ} (f : MultiAction → V) (d : Dict V) (actions : List MultiAction)
    → length (Dict.keys (index f d actions)) ≤ length (Dict.keys d) + length actions
length-index f d [] = omega arith
length-index f d (a ∷ actions) =
    omega
      (arith, length-index f (Dict.put d a.action_id (f a)) actions, length-put d a.action_id (f a))

-- A dictionary that gains an entry for each action gains different ids.
is_unique-index {ℓ} :
    {V : Type ℓ} (f : MultiAction → V) (d : Dict V) (actions : List MultiAction)
    → is_unique (Dict.keys d) ≡ true
    → length (Dict.keys (index f d actions)) ≡ length (Dict.keys d) + length actions
    → is_unique (Dict.keys d ++ action_ids actions) ≡ true
is_unique-index f d [] u h = ap is_unique (append-nil (Dict.keys d)) ∙ u
is_unique-index f d (a ∷ actions) u h = elim (Bool-cases (Dict.has d a.action_id)) [
  | inl there ↦ absurd (
      omega (
        arith,
        h,
        length-index f (Dict.put d a.action_id (f a)) actions,
        ap length (keys-put_known d a.action_id (f a) there),
      ))
  | inr new ↦
      let snoc = keys-put_new d a.action_id (f a) new in
      ap is_unique (
        sym (append_assoc (Dict.keys d) (a.action_id ∷ []) (action_ids actions))
        ∙ ap (λ ks. ks ++ action_ids actions) (sym snoc))
      ∙ is_unique-index f (Dict.put d a.action_id (f a)) actions
          (Dict.is_unique-put d a.action_id (f a) u)
          (omega (arith, h, ap length snoc, length-append (Dict.keys d) (a.action_id ∷ [])))
]

-- The test of the lengths tells whether the ids are different.
pub eqb-is_unique :
    (actions : List MultiAction)
    → eqb (length (Dict.keys (action_lookup actions))) (length actions)
      ≡ is_unique (action_ids actions)
eqb-is_unique actions = elim (Bool-cases (is_unique (action_ids actions))) [
  | inl unique ↦
      ground (arith, unique, ap length (keys-lookup actions unique), length-action_ids actions)
  | inr twice ↦
      elim (Bool-cases (eqb (length (Dict.keys (action_lookup actions))) (length actions))) [
        | inr other ↦ other ∙ sym twice
        | inl same ↦ same ∙ sym (is_unique-index (λ a. a) [] actions refl (ground (arith, same)))
      ]
]
