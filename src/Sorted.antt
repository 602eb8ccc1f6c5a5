-- ===== src/Sorted.antt =====
-- Python's `sorted`, which is stable: a list sorted by a Boolean order.
use mathlib.Core.List.{Perm}
use mathlib.Core.List.Perm
use yoma.Prelude.{
  is_nil, true, false, arith, ap, String, contains, refl, ◌==◌, ◌||◌, ◌≡◌, Bool, List, [], ◌∷◌,
  if◌then◌else◌, Bool-cases, inl, inr,
}

module _ {ℓ} {A : Type ℓ} (le : A → A → Bool) where
  -- `x` goes in front of the first element that is not before it.
  unfoldable pub insert_by : A → List A → List A
  insert_by x [] = x ∷ []
  insert_by x (y ∷ ys) = if le x y then x ∷ y ∷ ys else y ∷ insert_by x ys

  unfoldable pub sort_by : List A → List A
  unfolding insert_by
  sort_by [] = []
  sort_by (x ∷ xs) = insert_by x (sort_by xs)

  insert_by-perm : (x : A) (ys : List A) → Perm (insert_by x ys) (x ∷ ys)
  unfolding insert_by
  insert_by-perm x [] = Perm.rfl
  insert_by-perm x (y ∷ ys) = elim (Bool-cases (le x y)) [
    | inl before ↦ rw before Perm.rfl
    | inr behind ↦ rw behind (Perm.trans (Perm.cons y (insert_by-perm x ys)) (Perm.swap x y ys))
  ]

  -- The sorted list has the same elements, each as often.
  pub sort_by-perm : (xs : List A) → Perm (sort_by xs) xs
  unfolding sort_by
  sort_by-perm [] = Perm.rfl
  sort_by-perm (x ∷ xs) = Perm.trans (insert_by-perm x (sort_by xs)) (Perm.cons x (sort_by-perm xs))

contains-insert_by :
    (le : String → String → Bool) (y : String) (ys : List String) (x : String)
    → contains (insert_by le y ys) x ≡ (x == y || contains ys x)
unfolding insert_by
contains-insert_by le y [] x = refl
contains-insert_by le y (z ∷ ys) x = ground (arith, contains-insert_by le y ys x)

-- Sorting changes no membership.
pub contains-sort_by :
    (le : String → String → Bool) (xs : List String) (x : String)
    → contains (sort_by le xs) x ≡ contains xs x
unfolding sort_by
contains-sort_by le [] x = refl
contains-sort_by le (y ∷ xs) x =
    rw contains-insert_by (ap (λ b. x == y || b) (contains-sort_by le xs x))

module _ {ℓ} {A : Type ℓ} (le : A → A → Bool) where
  is_nil-insert_by : (x : A) (ys : List A) → is_nil (insert_by le x ys) ≡ false
  unfolding insert_by
  is_nil-insert_by x [] = refl
  is_nil-insert_by x (y ∷ ys) = ground arith

  pub is_nil-sort_by : (xs : List A) → is_nil (sort_by le xs) ≡ is_nil xs
  unfolding sort_by
  is_nil-sort_by [] = refl
  is_nil-sort_by (x ∷ xs) = is_nil-insert_by x (sort_by le xs)

-- Each element stands before the next.
module _ {ℓ} {A : Type ℓ} (le : A → A → Bool) where
  abbrev pub HeadLe : A → List A → Type 0
  HeadLe x [] = Unit
  HeadLe x (y ∷ ys) = le x y ≡ true

  abbrev pub IsSorted : List A → Type 0
  IsSorted [] = Unit
  IsSorted (x ∷ xs) = HeadLe x xs × IsSorted xs

  module _ (total : (x y : A) → le x y ≡ false → le y x ≡ true) where
    insert_by-HeadLe :
        (y x : A) (ys : List A) → le y x ≡ true → HeadLe y ys → HeadLe y (insert_by le x ys)
    unfolding insert_by
    insert_by-HeadLe y x [] h k = h
    insert_by-HeadLe y x (z ∷ zs) h k = elim (Bool-cases (le x z)) [
      | inl before ↦ rw before h
      | inr behind ↦ rw behind k
    ]

    insert_by-IsSorted : (x : A) (ys : List A) → IsSorted ys → IsSorted (insert_by le x ys)
    unfolding insert_by
    insert_by-IsSorted x [] h = (tt, tt)
    insert_by-IsSorted x (y ∷ ys) h = elim (Bool-cases (le x y)) [
      | inl before ↦ rw before (before, h)
      | inr behind ↦
          rw behind (insert_by-HeadLe y x ys (total x y behind) h.0, insert_by-IsSorted x ys h.1)
    ]

    pub sort_by-IsSorted : (xs : List A) → IsSorted (sort_by le xs)
    unfolding sort_by
    sort_by-IsSorted [] = tt
    sort_by-IsSorted (x ∷ xs) = insert_by-IsSorted x (sort_by le xs) (sort_by-IsSorted xs)
