-- ===== src/Orchestration/Ordered.antt =====
-- Neither the dictionary by ids nor the sorting loses or adds an entity.
use yoma.Prelude.{
  String, Bool, ◌≡◌, refl, List, [], ◌∷◌, ◌++◌, ◌==◌, ◌||◌, any, All, All-mono, arith, ap, sym, ◌∙◌,
  Bool-cases, inl, inr, eq_iff,
}
use yoma.Dict
use yoma.Dict.{Dict}
use yoma.Sorted.{sort_by, insert_by}
use yoma.Orchestration.Model.{DecisionDependency}
use yoma.Orchestration.Dependencies.{by_id, dependency_leb, ordered_of}
use yoma.Orchestration.Ids.{read_entity, IsOwn}

module _ {ℓ} {A : Type ℓ} where
  pub any-append : (p : A → Bool) (xs ys : List A) → any p (xs ++ ys) ≡ (any p xs || any p ys)
  any-append p [] ys = refl
  any-append p (x ∷ xs) ys = ground (arith, any-append p xs ys)

  any-insert_by :
      (le : A → A → Bool) (p : A → Bool) (x : A) (xs : List A)
      → any p (insert_by le x xs) ≡ (p x || any p xs)
  unfolding insert_by
  any-insert_by le p x [] = refl
  any-insert_by le p x (y ∷ ys) = ground (arith, any-insert_by le p x ys)

  any-sort_by : (le : A → A → Bool) (p : A → Bool) (xs : List A) → any p (sort_by le xs) ≡ any p xs
  unfolding sort_by
  any-sort_by le p [] = refl
  any-sort_by le p (x ∷ xs) =
      any-insert_by le p x (sort_by le xs) ∙ ap (λ b. p x || b) (any-sort_by le p xs)

  All-insert_by {κ} :
      (le : A → A → Bool) (P : A → Type κ) (x : A) (xs : List A)
      → P x
      → All P xs
      → All P (insert_by le x xs)
  unfolding insert_by
  All-insert_by le P x [] h t = (h, tt)
  All-insert_by le P x (y ∷ ys) h t = elim (Bool-cases (le x y)) [
    | inl before ↦ rw before (h, t)
    | inr behind ↦ rw behind (t.0, All-insert_by le P x ys h t.1)
  ]

  All-sort_by {κ} :
      (le : A → A → Bool) (P : A → Type κ) (xs : List A) → All P xs → All P (sort_by le xs)
  unfolding sort_by
  All-sort_by le P [] t = tt
  All-sort_by le P (x ∷ xs) t = All-insert_by le P x (sort_by le xs) t.0 (All-sort_by le P xs t.1)

  any-cong : (p q : A → Bool) (xs : List A) → All (λ x. p x ≡ q x) xs → any p xs ≡ any q xs
  any-cong p q [] h = refl
  any-cong p q (x ∷ xs) h = ground (arith, h.0, any-cong p q xs h.1)

module _ {V : Type 0} (p : V → Bool) where
  any-put :
      (d : Dict V) (k : String) (v : V)
      → Dict.AllEntries (λ j w. j ≡ k → p w ≡ p v) d
      → any p (Dict.values (Dict.put d k v)) ≡ (p v || any p (Dict.values d))
  unfolding Dict.put
  any-put [] k v h = refl
  any-put ((j, w) ∷ d) k v h = elim (Bool-cases (j == k)) [
    | inl same ↦ rw same (ground (arith, h.0 ((eq_iff j k).0 same)))
    | inr other ↦ rw other (ground (arith, any-put d k v h.1))
  ]

-- The dictionary by ids, of dependencies whose ids tell their entities.
abbrev IsKeyed : Dict DecisionDependency → Type 0
IsKeyed d = Dict.AllEntries (λ k (x : DecisionDependency). x.dependency_id ≡ k) d

module _ (plan_id : String) where
  abbrev reads : String → DecisionDependency → Bool
  reads e x = e == read_entity plan_id x.dependency_id

  any-by_id :
      (e : String) (d : Dict DecisionDependency) (xs : List DecisionDependency)
      → IsKeyed d
      → any (reads e) (Dict.values (by_id d xs))
        ≡ (any (reads e) (Dict.values d) || any (reads e) xs)
  any-by_id e d [] h = ground arith
  any-by_id e d (x ∷ xs) h =
      any-by_id e (Dict.put d x.dependency_id x) xs (
        Dict.AllEntries-put (λ k (y : DecisionDependency). y.dependency_id ≡ k) d x.dependency_id x
          h refl)
      ∙ ap (λ b. b || any (reads e) xs)
          (any-put (reads e) d x.dependency_id x (
            All-mono (λ (w : String × DecisionDependency). w.1.dependency_id ≡ w.0)
              (λ (w : String × DecisionDependency). w.0 ≡ x.dependency_id → reads e w.1 ≡ reads e x)
              (λ w same k. ap (λ id. e == read_entity plan_id id) (same ∙ k)) d h))
      ∙ ground arith

  All-by_id :
      (P : DecisionDependency → Type 0) (d : Dict DecisionDependency) (xs : List DecisionDependency)
      → Dict.AllEntries (λ k x. P x) d
      → All P xs
      → Dict.AllEntries (λ k x. P x) (by_id d xs)
  All-by_id P d [] h t = h
  All-by_id P d (x ∷ xs) h t =
      All-by_id P (Dict.put d x.dependency_id x) xs
        (Dict.AllEntries-put (λ k x. P x) d x.dependency_id x h t.0) t.1

  All-values :
      (P : DecisionDependency → Type 0) (d : Dict DecisionDependency)
      → Dict.AllEntries (λ k x. P x) d
      → All P (Dict.values d)
  All-values P [] h = tt
  All-values P ((k, x) ∷ d) h = (h.0, All-values P d h.1)

  pub ordered-IsOwn :
      (xs : List DecisionDependency) → All (IsOwn plan_id) xs → All (IsOwn plan_id) (ordered_of xs)
  unfolding ordered_of
  ordered-IsOwn xs h =
      All-sort_by dependency_leb (IsOwn plan_id) (Dict.values (by_id [] xs))
        (All-values (IsOwn plan_id) (by_id [] xs) (All-by_id (IsOwn plan_id) [] xs tt h))

  -- A test of the entity is a test of the id.
  any-reads :
      (e : String) (xs : List DecisionDependency)
      → All (IsOwn plan_id) xs
      → any (λ (x : DecisionDependency). e == x.entity_id) xs ≡ any (reads e) xs
  any-reads e xs h =
      any-cong (λ (x : DecisionDependency). e == x.entity_id) (reads e) xs
        (All-mono (IsOwn plan_id) (λ (x : DecisionDependency). (e == x.entity_id) ≡ reads e x)
          (λ x own. ap (λ id. e == id) (sym own.0)) xs h)

  ordered_reads :
      (e : String) (xs : List DecisionDependency) → any (reads e) (ordered_of xs) ≡ any (reads e) xs
  unfolding ordered_of
  ordered_reads e xs =
      any-sort_by dependency_leb (reads e) (Dict.values (by_id [] xs)) ∙ any-by_id e [] xs tt

  pub any-ordered :
      (e : String) (xs : List DecisionDependency)
      → All (IsOwn plan_id) xs
      → any (λ (x : DecisionDependency). e == x.entity_id) (ordered_of xs)
        ≡ any (λ (x : DecisionDependency). e == x.entity_id) xs
  any-ordered e xs h =
      any-reads e (ordered_of xs) (ordered-IsOwn xs h) ∙ ordered_reads e xs ∙ sym (any-reads e xs h)
