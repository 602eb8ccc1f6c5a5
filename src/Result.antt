-- ===== src/Result.antt =====
-- Python's exceptions as values: a function that may raise returns a `Result`.
use yoma.Prelude.{Bool, true, false, String, ◌≡◌, refl, ◌⊎◌, inl, inr}

-- The exception classes that the program raises, with their messages.
pub data Error : Type 0 where
  value_error type_error key_error permission_error runtime_error : String → Error

pub data Result {ℓ} (A : Type ℓ) : Type ℓ where
  ok : A → Result A
  err : Error → Result A

module _ {ℓ κ} {A : Type ℓ} {B : Type κ} where
  infixl 5 ◌>>=◌
  -- An exception ends the function.
  abbrev pub ◌>>=◌ : Result A → (A → Result B) → Result B
  ok value >>= next = next value
  err e >>= next = err e

infixl 5 ◌>>◌
abbrev pub ◌>>◌ {κ} : {B : Type κ} → Result (Unit {0}) → Result B → Result B
first >> second = first >>= λ _. second

-- `if test: raise e`
abbrev pub raise_if : Bool → Error → Result (Unit {0})
raise_if true e = err e
raise_if false e = ok tt

-- `if not test: raise e`
abbrev pub raise_unless : Bool → Error → Result (Unit {0})
raise_unless true e = ok tt
raise_unless false e = err e

-- A result that returned, as a Boolean and by its value.
abbrev pub is_ok {ℓ} : {A : Type ℓ} → Result A → Bool
is_ok (ok a) = true
is_ok (err e) = false

pub Result-cases {ℓ} :
    {A : Type ℓ} (r : Result A) → ((e : Error) × (r ≡ err e)) ⊎ ((a : A) × (r ≡ ok a))
Result-cases (ok a) = inr (a, refl)
Result-cases (err e) = inl (e, refl)
