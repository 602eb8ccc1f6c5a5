-- ===== src/Dict.antt =====
-- Python's `dict` with text keys: the entries in the order in which their keys were first inserted.
-- An assignment to a key that is there keeps its place.
use mathlib.Core.Path.{subst₂}
use mathlib.Core.Option.{some-injective}
use yoma.Prelude.{
  true, false, ◌∙◌, ap, contains, contains-append, is_unique, Bool-cases, inl, inr, String, ◌≡◌,
  refl, Bool, Option, none, some, List, [], ◌∷◌, arith, ◌==◌, eq_iff, if◌then◌else◌, All, is_some,
  ◌++◌, eq_refl,
}

abbrev pub Dict {ℓ} : Type ℓ → Type ℓ
Dict V = List (String × V)

module _ {ℓ} {V : Type ℓ} where
  -- `d.get(k)`
  unfoldable pub get : Dict V → String → Option V
  get [] k = none
  get ((j, v) ∷ d) k = if j == k then some v else get d k

  -- `d[k] = v`
  unfoldable pub put : Dict V → String → V → Dict V
  put [] k v = (k, v) ∷ []
  put ((j, w) ∷ d) k v = if j == k then (j, v) ∷ d else (j, w) ∷ put d k v

  -- `d.pop(k, None)`
  unfoldable pub pop : Dict V → String → Dict V
  pop [] k = []
  pop ((j, w) ∷ d) k = if j == k then d else (j, w) ∷ pop d k

  -- `d.values()`, in the order of insertion.
  abbrev pub values : Dict V → List V
  values [] = []
  values ((j, v) ∷ d) = v ∷ values d

  abbrev pub keys : Dict V → List String
  keys [] = []
  keys ((j, v) ∷ d) = j ∷ keys d

  -- `k in d`
  abbrev pub has : Dict V → String → Bool
  has d k = is_some (get d k)

module _ {ℓ} {V : Type ℓ} where
  pub get-put :
      (d : Dict V) (k : String) (v : V) (j : String)
      → get (put d k v) j ≡ (if k == j then some v else get d j)
  unfolding get put
  get-put [] k v j = refl
  get-put ((i, w) ∷ d) k v j = ground (arith, eq_iff i k, eq_iff i j, eq_iff k j, get-put d k v j)

  pub put-put : (d : Dict V) (k : String) (v w : V) → put (put d k v) k w ≡ put d k w
  unfolding put
  put-put [] k v w = ground (arith, eq_refl k)
  put-put ((i, u) ∷ d) k v w = ground (arith, put-put d k v w)

  pub get-put_self : (d : Dict V) (k : String) (v : V) → get (put d k v) k ≡ some v
  get-put_self d k v = ground (arith, get-put d k v k, eq_refl k)

  -- A key that is there keeps its place, and a new one goes to the end.
  pub keys-put :
      (d : Dict V) (k : String) (v : V)
      → keys (put d k v) ≡ (if has d k then keys d else keys d ++ k ∷ [])
  unfolding get put
  keys-put [] k v = refl
  keys-put ((i, w) ∷ d) k v = ground (arith, keys-put d k v)

  -- Every entry satisfies `P`, of its key and its value.
  abbrev pub AllEntries {κ} : (String → V → Type κ) → Dict V → Type κ
  AllEntries P d = All (λ (e : String × V). P e.0 e.1) d

module _ {ℓ κ} {V : Type ℓ} (P : String → V → Type κ) where
  pub AllEntries-put :
      (d : Dict V) (k : String) (v : V) → AllEntries P d → P k v → AllEntries P (put d k v)
  unfolding put
  AllEntries-put [] k v h p = (p, tt)
  AllEntries-put ((j, w) ∷ d) k v h p = elim (Bool-cases (j == k)) [
    | inl same ↦ rw same (rw ((eq_iff j k).0 same) p, h.1)
    | inr other ↦ rw other (h.0, AllEntries-put d k v h.1 p)
  ]

  pub AllEntries-get : (d : Dict V) (k : String) (v : V) → AllEntries P d → get d k ≡ some v → P k v
  unfolding get
  AllEntries-get [] k v h e = cc
  AllEntries-get ((j, w) ∷ d) k v h e = elim (Bool-cases (j == k)) [
    | inl same ↦ subst₂ P ((eq_iff j k).0 same) (some-injective _ _ (rw same at e)) h.0
    | inr other ↦ AllEntries-get d k v h.1 (rw other at e)
  ]

pub contains-keys {ℓ} : {V : Type ℓ} (d : Dict V) (k : String) → contains (keys d) k ≡ has d k
unfolding get
contains-keys [] k = refl
contains-keys ((j, v) ∷ d) k = elim (Bool-cases (j == k)) [
  | inl same ↦ ground (arith, same, eq_refl k, ap (λ z. k == z) ((eq_iff j k).0 same))
  | inr other ↦ ground (arith, other, contains-keys d k, eq_iff j k, eq_iff k j)
]

pub is_unique-middle :
    (xs : List String) (y : String) (ys : List String)
    → is_unique (xs ++ y ∷ ys) ≡ true
    → contains xs y ≡ false
is_unique-middle [] y ys h = refl
is_unique-middle (x ∷ xs) y ys h = ground (
  arith,
  h,
  contains-append xs (y ∷ ys) x,
  eq_iff x y,
  eq_iff y x,
  is_unique-middle xs y ys (ground (arith, h)),
)

is_unique-snoc :
    (xs : List String) (y : String)
    → is_unique xs ≡ true
    → contains xs y ≡ false
    → is_unique (xs ++ y ∷ []) ≡ true
is_unique-snoc [] y h k = refl
is_unique-snoc (x ∷ xs) y h k = ground (
  arith,
  h,
  k,
  contains-append xs (y ∷ []) x,
  eq_iff x y,
  eq_iff y x,
  is_unique-snoc xs y (ground (arith, h)) (ground (arith, k)),
)

-- The keys stay different.
pub is_unique-put {ℓ} :
    {V : Type ℓ} (d : Dict V) (k : String) (v : V)
    → is_unique (keys d) ≡ true
    → is_unique (keys (put d k v)) ≡ true
is_unique-put d k v h = elim (Bool-cases (has d k)) [
  | inl known ↦ rw (keys-put d k v, known) h
  | inr new ↦ rw (keys-put d k v, new) (is_unique-snoc (keys d) k h (contains-keys d k ∙ new))
]
