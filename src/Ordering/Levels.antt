-- ===== src/Ordering/Levels.antt =====
-- The `while remaining` loops of `order` and `analyze`, over the ids of the actions; `deps` is the
-- dictionary `dependencies`.
use yoma.Prelude.{
  ℕ, zero, suc, String, Bool, not, List, [], ◌∷◌, ◌++◌, Option, none, some, is_nil, keep, subset,
  text_leb, if◌then◌else◌,
}
use yoma.Sorted.{sort_by}

-- How the loop of `order` ends: every action placed, or some left that wait for one another.
pub data Levelling : Type 0 where
  placed : List (List String) → Levelling
  circular : List String → Levelling

abbrev pub put_level : List String → Option Levelling → Option Levelling
put_level level none = none
put_level level (some (circular stuck)) = some (circular stuck)
put_level level (some (placed levels)) = some (placed (level ∷ levels))

module _ (deps : String → List String) where
  abbrev pub is_ready : List String → String → Bool
  is_ready completed id = subset (deps id) completed

  unfoldable pub ready : List String → List String → List String
  ready completed remaining = keep (is_ready completed) remaining

  unfoldable pub waiting : List String → List String → List String
  waiting completed remaining = keep (λ id. not (is_ready completed id)) remaining

  -- The loop, with fuel; `none` means that the fuel ran out.
  unfoldable pub level_from : ℕ → List String → List String → Option Levelling
  level_from fuel completed [] = some (placed [])
  level_from zero completed (id ∷ ids) = none
  level_from (suc fuel) completed (id ∷ ids) =
      let remaining = id ∷ ids in
      let level = sort_by text_leb (ready completed remaining) in
      let rest = level_from fuel (completed ++ level) (waiting completed remaining) in
      if is_nil level then some (circular remaining) else put_level level rest

  -- The loop of `analyze`, which keeps no levels; what it returns is what remains.
  unfoldable pub drain_from : ℕ → List String → List String → Option (List String)
  drain_from fuel completed [] = some []
  drain_from zero completed (id ∷ ids) = none
  drain_from (suc fuel) completed (id ∷ ids) =
      let remaining = id ∷ ids in
      let available = ready completed remaining in
      let rest = drain_from fuel (completed ++ available) (waiting completed remaining) in
      if is_nil available then some remaining else rest
