-- ===== src/Value.antt =====
-- Python values that the program carries and does not interpret, and its times.
use yoma.Prelude.{ℕ, String, Bool, List, ltb, leb}

-- `Any`, as the program writes it into mappings.
pub data Value : Type 0 where
  absent : Value
  flag : Bool → Value
  number : ℕ → Value
  text : String → Value

-- `Mapping[str, Any]`
abbrev pub Mapping : Type 0
Mapping = List (String × Value)

-- `datetime`: microseconds since the first one, and whether `tzinfo` is set.
pub record DateTime : Type 0 where
  pub instant : ℕ
  pub aware : Bool

-- `a < b` and `a <= b`, for two aware times.
abbrev pub earlier : DateTime → DateTime → Bool
earlier a b = ltb a.instant b.instant

abbrev pub not_later : DateTime → DateTime → Bool
not_later a b = leb a.instant b.instant

abbrev pub second : ℕ
second = 1000000

abbrev pub day : ℕ
day = 86400000000
