-- ===== src/Ordering/Sound.antt =====
-- The end of the loop, and the levels that it makes.
use mathlib.Core.List.{Perm, flatten}
use mathlib.Core.List.Perm
use yoma.Prelude.{
  ℕ, zero, suc, ◌<◌, ◌≤◌, String, ◌≡◌, inl, inr, refl, true, false, List, [], ◌∷◌, ◌++◌, Option,
  none, some, is_nil, length, subset, contains, any, All, text_leb, arith, Bool-cases, ◌∙◌, sym,
  subst, All-of_contains, contains-keep, keep-append-rest-perm, length-keep-add-rest,
}
use yoma.Sorted.{sort_by, sort_by-perm, contains-sort_by, is_nil-sort_by}
use yoma.Ordering.Levels.{
  Levelling, placed, circular, put_level, is_ready, ready, waiting, level_from,
}

push_level : List String → Levelling → Levelling
push_level level (circular stuck) = circular stuck
push_level level (placed levels) = placed (level ∷ levels)

put_level_lem :
    (level : List String) (l : Levelling) → put_level level (some l) ≡ some (push_level level l)
unfolding push_level
put_level_lem level (placed levels) = refl
put_level_lem level (circular stuck) = refl

put_level_placed :
    (level : List String) (o : Option Levelling) (levels : List (List String))
    → put_level level o ≡ some (placed levels)
    → (rest : List (List String)) × (o ≡ some (placed rest)) × (levels ≡ level ∷ rest)
put_level_placed level none levels h = cc
put_level_placed level (some (circular stuck)) levels h = cc
put_level_placed level (some (placed rest)) levels h = (rest, refl, ground arith)

pub put_level_circular :
    (level : List String) (o : Option Levelling) (stuck : List String)
    → put_level level o ≡ some (circular stuck)
    → o ≡ some (circular stuck)
put_level_circular level none stuck h = cc
put_level_circular level (some (circular other)) stuck h = h
put_level_circular level (some (placed rest)) stuck h = cc

not_placed :
    {stuck : List String} {levels : List (List String)}
    → some (circular stuck) ≡ some (placed levels)
    → ⊥
not_placed h = cc

module _ (deps : String → List String) where
  -- Every name of a level has all that it depends on in `completed` or in a level before.
  abbrev pub IsLevelled : List String → List (List String) → Type 0
  IsLevelled completed [] = Unit
  IsLevelled completed (level ∷ levels) =
      All (λ id. subset (deps id) completed ≡ true) level × IsLevelled (completed ++ level) levels

  -- A set of names, not empty, each of which depends on a name of the set.
  pub record IsKnot (knot : List String) : Type 0 where
    pub inhabited : is_nil knot ≡ false
    pub tied : All (λ id. any (contains knot) (deps id) ≡ true) knot

  ready-append-waiting-perm :
      (completed remaining : List String)
      → Perm (ready deps completed remaining ++ waiting deps completed remaining) remaining
  unfolding ready waiting
  ready-append-waiting-perm completed remaining =
      keep-append-rest-perm (is_ready deps completed) remaining

  waiting_shrinks :
      (completed remaining : List String)
      → is_nil (sort_by text_leb (ready deps completed remaining)) ≡ false
      → length (waiting deps completed remaining) < length remaining
  unfolding ready waiting
  waiting_shrinks completed remaining h = ground (
    arith,
    length-keep-add-rest (is_ready deps completed) remaining,
    is_nil-sort_by text_leb (ready deps completed remaining),
  )

  -- With fuel for every name the loop ends.
  pub level_from_ends :
      (fuel : ℕ) (completed remaining : List String)
      → length remaining ≤ fuel
      → (l : Levelling) × (level_from deps fuel completed remaining ≡ some l)
  unfolding level_from
  level_from_ends fuel completed [] h = (placed [], refl)
  level_from_ends zero completed (id ∷ ids) h = absurd (omega arith)
  level_from_ends (suc fuel) completed (id ∷ ids) h =
      elim (Bool-cases (is_nil (sort_by text_leb (ready deps completed (id ∷ ids))))) [
        | inl stuck ↦ (circular (id ∷ ids), rw stuck)
        | inr moves ↦
            let (l, ends) =
              level_from_ends fuel (completed ++ sort_by text_leb (ready deps completed (id ∷ ids)))
                (waiting deps completed (id ∷ ids))
                (omega (arith, waiting_shrinks completed (id ∷ ids) moves)) in
            (
              push_level (sort_by text_leb (ready deps completed (id ∷ ids))) l,
              rw (moves, ends, put_level_lem),
            )
      ]

  -- What one more round does.
  pub level_from_round :
      (fuel : ℕ) (completed : List String) (id : String) (ids : List String)
      → is_nil (sort_by text_leb (ready deps completed (id ∷ ids))) ≡ false
      → level_from deps (suc fuel) completed (id ∷ ids)
        ≡ put_level (sort_by text_leb (ready deps completed (id ∷ ids))) (
            level_from deps fuel
              (completed ++ sort_by text_leb (ready deps completed (id ∷ ids)))
              (waiting deps completed (id ∷ ids)))
  unfolding level_from
  level_from_round fuel completed id ids moves = rw moves

  pub level_from_stuck :
      (fuel : ℕ) (completed : List String) (id : String) (ids : List String)
      → is_nil (sort_by text_leb (ready deps completed (id ∷ ids))) ≡ true
      → level_from deps (suc fuel) completed (id ∷ ids) ≡ some (circular (id ∷ ids))
  unfolding level_from
  level_from_stuck fuel completed id ids stuck = rw stuck

  ready-IsReady :
      (completed remaining : List String)
      → All
          (λ id. subset (deps id) completed ≡ true)
          (sort_by text_leb (ready deps completed remaining))
  unfolding ready
  ready-IsReady completed remaining = All-of_contains _ _ λ x m. ground (
    arith,
    contains-sort_by text_leb (ready deps completed remaining) x,
    contains-keep (is_ready deps completed) remaining x,
    m,
  )

  -- A result of levels: each respects the dependencies, and together they are the names, each as
  -- often as it was given.
  pub level_from_sound :
      (fuel : ℕ) (completed remaining : List String) (levels : List (List String))
      → level_from deps fuel completed remaining ≡ some (placed levels)
      → IsLevelled completed levels × Perm (flatten levels) remaining
  unfolding level_from flatten
  level_from_sound fuel completed [] levels h =
      let empty : [] ≡ levels = ground arith in
      subst (λ l. IsLevelled completed l × Perm (flatten l) []) empty (tt, Perm.rfl)
  level_from_sound zero completed (id ∷ ids) levels h = cc
  level_from_sound (suc fuel) completed (id ∷ ids) levels h =
      elim (Bool-cases (is_nil (sort_by text_leb (ready deps completed (id ∷ ids))))) [
        | inl stuck ↦ absurd (not_placed (sym (level_from_stuck fuel completed id ids stuck) ∙ h))
        | inr moves ↦
            let level = sort_by text_leb (ready deps completed (id ∷ ids)) in
            let (rest, ends, e) =
              put_level_placed level _ levels
                (sym (level_from_round fuel completed id ids moves) ∙ h) in
            let (ordered, same) =
              level_from_sound fuel (completed ++ level) (waiting deps completed (id ∷ ids)) rest
                ends in
            subst (λ l. IsLevelled completed l × Perm (flatten l) (id ∷ ids)) (sym e)
              (
                (ready-IsReady completed (id ∷ ids), ordered),
                Perm.trans (Perm.append (sort_by-perm text_leb _) same)
                    (ready-append-waiting-perm completed (id ∷ ids)),
              )
      ]
