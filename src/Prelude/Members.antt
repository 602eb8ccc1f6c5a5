-- ===== src/Prelude/Members.antt =====
-- Lists of texts as Python's sets and tuples of names: membership, inclusion, duplicates.
use mathlib.Core.List.{Perm, Permᴰ}
use mathlib.Core.Logic.{∥∥₁_elim}
use mathlib.Core.Path.{◌≡◌, refl, sym, ap, ap₂, ◌∙◌, subst}
use mathlib.Core.Logic.{inl, inr}
use mathlib.Core.Bool.{Bool, true, false, not, ◌&&◌, ◌||◌}
use mathlib.Core.List.{List, [], ◌∷◌, ◌++◌}
use Prim.Native.String.{String}
use native.Mathlib.Omega.{arith}
use text.Mathlib.Text.{◌==◌}
use text.Mathlib.TextEquality.{eq_iff}
use text.Mathlib.TextPositions.{eq_refl}
use yoma.Prelude.Tests.{if◌then◌else◌, Bool-cases}
use yoma.Prelude.Lists.{All, any, all, keep, is_nil}

-- `x in xs`
abbrev pub contains : List String → String → Bool
contains xs x = any (λ y. x == y) xs

-- `set(xs).issubset(ys)`
abbrev pub subset : List String → List String → Bool
subset xs ys = all (contains ys) xs

-- `set(xs).intersection(ys)`, as a test.
abbrev pub overlaps : List String → List String → Bool
overlaps xs ys = any (contains ys) xs

-- The elements of `set(xs)`, each at its last place.
abbrev pub dedupe : List String → List String
dedupe [] = []
dedupe (x ∷ xs) = let rest = dedupe xs in if contains xs x then rest else x ∷ rest

-- `len(set(xs)) == len(xs)`
abbrev pub is_unique : List String → Bool
is_unique [] = true
is_unique (x ∷ xs) = not (contains xs x) && is_unique xs

pub contains-append :
    (xs ys : List String) (x : String) → contains (xs ++ ys) x ≡ (contains xs x || contains ys x)
contains-append [] ys x = refl
contains-append (y ∷ xs) ys x = ground (arith, contains-append xs ys x)

pub All-contains {κ} :
    (P : String → Type κ) (xs : List String) (x : String) → All P xs → contains xs x ≡ true → P x
All-contains P [] x h m = cc
All-contains P (y ∷ xs) x h m = elim (Bool-cases (x == y)) [
  | inl same ↦ subst P (sym ((eq_iff x y).0 same)) h.0
  | inr other ↦ All-contains P xs x h.1 (ground (arith, m, other))
]

-- Inclusion, and a property of every element, from each element's membership.
pub All-of_contains {κ} :
    (P : String → Type κ) (xs : List String)
    → ((x : String) → contains xs x ≡ true → P x)
    → All P xs
All-of_contains P [] h = tt
All-of_contains P (y ∷ xs) h =
    (h y (ground (arith, eq_refl y)), All-of_contains P xs (λ x m. h x (ground (arith, m))))

pub any-contains :
    (p : String → Bool) (xs : List String)
    → any p xs ≡ true
    → (x : String) × (contains xs x ≡ true) × (p x ≡ true)
any-contains p [] h = cc
any-contains p (y ∷ xs) h = elim (Bool-cases (p y)) [
  | inl holds ↦ (y, ground (arith, eq_refl y), holds)
  | inr fails ↦
      let (x, m, holds) = any-contains p xs (ground (arith, h, fails)) in
      (x, ground (arith, m), holds)
]

pub all-contains :
    (p : String → Bool) (xs : List String) (x : String)
    → all p xs ≡ true
    → contains xs x ≡ true
    → p x ≡ true
all-contains p [] x h m = cc
all-contains p (y ∷ xs) x h m = elim (Bool-cases (x == y)) [
  | inl same ↦ subst (λ z. p z ≡ true) (sym ((eq_iff x y).0 same)) (ground (arith, h))
  | inr other ↦ all-contains p xs x (ground (arith, h)) (ground (arith, m, other))
]

-- A test that fails somewhere has an element at which it fails.
pub not-all-contains :
    (p : String → Bool) (xs : List String)
    → all p xs ≡ false
    → (x : String) × (contains xs x ≡ true) × (p x ≡ false)
not-all-contains p [] h = cc
not-all-contains p (y ∷ xs) h = elim (Bool-cases (p y)) [
  | inr fails ↦ (y, ground (arith, eq_refl y), fails)
  | inl holds ↦
      let (x, m, fails) = not-all-contains p xs (ground (arith, h, holds)) in
      (x, ground (arith, m), fails)
]

pub contains-keep :
    (p : String → Bool) (xs : List String) (x : String)
    → contains (keep p xs) x ≡ (p x && contains xs x)
contains-keep p [] x = ground arith
contains-keep p (y ∷ xs) x = elim (Bool-cases (x == y)) [
  | inl same ↦ ground (arith, same, ap p ((eq_iff x y).0 same), contains-keep p xs x)
  | inr other ↦ ground (arith, other, contains-keep p xs x)
]

pub any-of_contains :
    (p : String → Bool) (xs : List String) (x : String)
    → contains xs x ≡ true
    → p x ≡ true
    → any p xs ≡ true
any-of_contains p [] x m h = cc
any-of_contains p (y ∷ xs) x m h = elim (Bool-cases (x == y)) [
  | inl same ↦ ground (arith, subst (λ z. p z ≡ true) ((eq_iff x y).0 same) h)
  | inr other ↦ ground (arith, any-of_contains p xs x (ground (arith, m, other)) h)
]

-- An empty filter: the test fails at every element.
pub keep-nil :
    (p : String → Bool) (xs : List String) (x : String)
    → is_nil (keep p xs) ≡ true
    → contains xs x ≡ true
    → p x ≡ false
keep-nil p xs x h m = elim (Bool-cases (p x)) [
  | inr fails ↦ fails
  | inl holds ↦ absurd (no_member (keep p xs) x h (ground (arith, contains-keep p xs x, m, holds)))
]
  where
    no_member : (ys : List String) (y : String) → is_nil ys ≡ true → contains ys y ≡ true → ⊥
    no_member [] y h m = cc
    no_member (z ∷ ys) y h m = cc

contains-permᴰ : {xs ys : List String} (x : String) → Permᴰ xs ys → contains xs x ≡ contains ys x
contains-permᴰ x Permᴰ.nil = refl
contains-permᴰ x (Permᴰ.cons e p) = ap₂ (λ a b. x == a || b) e (contains-permᴰ x p)
contains-permᴰ x (Permᴰ.swap e f) = ground (arith, ap (λ z. x == z) e, ap (λ z. x == z) f)
contains-permᴰ x (Permᴰ.trans p q) = contains-permᴰ x p ∙ contains-permᴰ x q

-- Two lists with the same elements have the same members.
pub contains-perm : {xs ys : List String} (x : String) → Perm xs ys → contains xs x ≡ contains ys x
contains-perm x p = ∥∥₁_elim p (hlevel) (contains-permᴰ x)

pub contains-dedupe : (xs : List String) (x : String) → contains (dedupe xs) x ≡ contains xs x
contains-dedupe [] x = refl
contains-dedupe (y ∷ xs) x = elim (Bool-cases (contains xs y)) [
  | inr new ↦ ground (arith, new, contains-dedupe xs x)
  | inl old ↦ elim (Bool-cases (x == y)) [
    | inl same ↦
        ground (arith, old, same, ap (contains xs) ((eq_iff x y).0 same), contains-dedupe xs x)
    | inr other ↦ ground (arith, old, other, contains-dedupe xs x)
  ]
]

pub is_nil-contains : (xs : List String) (x : String) → is_nil xs ≡ true → contains xs x ≡ false
is_nil-contains [] x h = refl
is_nil-contains (y ∷ xs) x h = cc

is_unique-permᴰ : {xs ys : List String} → Permᴰ xs ys → is_unique xs ≡ is_unique ys
is_unique-permᴰ Permᴰ.nil = refl
is_unique-permᴰ (Permᴰ.cons {a = x} {l₂ = ys} e p) =
    ground (arith, contains-permᴰ x p, ap (λ z. contains ys z) e, is_unique-permᴰ p)
is_unique-permᴰ (Permᴰ.swap {a = a} {b = b} {l = l} e f) =
    exchange a b ∙ ap₂ (λ x y. is_unique (x ∷ y ∷ l)) f e
  where
    exchange : (x y : String) → is_unique (x ∷ y ∷ l) ≡ is_unique (y ∷ x ∷ l)
    exchange x y = ground (arith, eq_iff x y, eq_iff y x)
is_unique-permᴰ (Permᴰ.trans p q) = is_unique-permᴰ p ∙ is_unique-permᴰ q

-- Order does not matter for whether names repeat.
pub is_unique-perm : {xs ys : List String} → Perm xs ys → is_unique xs ≡ is_unique ys
is_unique-perm p = ∥∥₁_elim p (hlevel) is_unique-permᴰ
