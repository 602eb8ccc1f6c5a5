-- ===== src/Ordering/Knots.antt =====
-- How the loop ends at a set of actions that wait for one another, a knot.
use mathlib.Core.List.{Perm, flatten}
use mathlib.Core.Path.{ap₂}
use yoma.Prelude.{
  not, ◌&&◌, ◌||◌, ℕ, zero, suc, ◌≤◌, String, Bool, ◌≡◌, ◌⊎◌, inl, inr, refl, true, false, List, [],
  ◌∷◌, ◌++◌, some, is_nil, length, contains, text_leb, arith, Bool-cases, ap, ◌∙◌, sym, subst,
  contains-append, All-contains, All-of_contains, any-contains, any-of_contains, all-contains,
  not-all-contains, contains-keep, keep-nil, contains-perm, eq_refl,
}
use yoma.Sorted.{sort_by, contains-sort_by, is_nil-sort_by}
use yoma.Ordering.Levels.{Levelling, placed, circular, is_ready, ready, waiting, level_from}
use yoma.Ordering.Sound.{
  IsLevelled, IsKnot, level_from_ends, level_from_sound, level_from_round, level_from_stuck,
  put_level_circular,
}

abbrev pub Within : List String → List String → Type 0
Within xs ys = (x : String) → contains xs x ≡ true → contains ys x ≡ true

and_right : (a b : Bool) → (a && b) ≡ true → b ≡ true
and_right a b h = ground arith

or_right : (a b : Bool) → (a || b) ≡ true → a ≡ false → b ≡ true
or_right a b h n = ground arith

regroup : (c r p : Bool) → (c || r) ≡ true → ((c || (p && r)) || (not p && r)) ≡ true
regroup c r p h = ground arith

pub circular_inj : {a b : List String} → some (circular a) ≡ some (circular b) → a ≡ b
circular_inj h = cc

module _ (deps : String → List String) where
  -- Every name that a remaining action depends on is completed or remains.
  abbrev IsClosed : List String → List String → Type 0
  IsClosed completed remaining =
      (x d : String)
      → contains remaining x ≡ true
      → contains (deps x) d ≡ true
      → contains (completed ++ remaining) d ≡ true

  pub contains-waiting :
      (completed remaining : List String) (x : String)
      → contains (waiting deps completed remaining) x
        ≡ (not (is_ready deps completed x) && contains remaining x)
  unfolding waiting
  contains-waiting completed remaining x =
      contains-keep (λ id. not (is_ready deps completed id)) remaining x

  pub contains-level :
      (completed remaining : List String) (x : String)
      → contains (sort_by text_leb (ready deps completed remaining)) x
        ≡ (is_ready deps completed x && contains remaining x)
  unfolding ready
  contains-level completed remaining x =
      contains-sort_by text_leb (ready deps completed remaining) x
      ∙ contains-keep (is_ready deps completed) remaining x

  pub waiting-Within :
      (completed remaining : List String) → Within (waiting deps completed remaining) remaining
  waiting-Within completed remaining x m =
      and_right _ _ (sym (contains-waiting completed remaining x) ∙ m)

  IsClosed-waiting :
      (completed remaining : List String)
      → IsClosed completed remaining
      → IsClosed
          (completed ++ sort_by text_leb (ready deps completed remaining))
          (waiting deps completed remaining)
  IsClosed-waiting completed remaining h x d m n =
      let level = sort_by text_leb (ready deps completed remaining) in
      contains-append (completed ++ level) (waiting deps completed remaining) d
      ∙ ap₂ ◌||◌ (contains-append completed level d) (contains-waiting completed remaining d)
      ∙ ap
          (λ b.
            (contains completed d || b)
            || (not (is_ready deps completed d) && contains remaining d))
          (contains-level completed remaining d)
      ∙ regroup (contains completed d) (contains remaining d) (is_ready deps completed d) (
          sym (contains-append completed remaining d)
          ∙ h x d (waiting-Within completed remaining x m) n)

  IsKnot-of_stuck :
      (completed : List String) (id : String) (ids : List String)
      → IsClosed completed (id ∷ ids)
      → is_nil (sort_by text_leb (ready deps completed (id ∷ ids))) ≡ true
      → IsKnot deps (id ∷ ids)
  unfolding ready
  IsKnot-of_stuck completed id ids closed stuck = record {
    inhabited = refl;
    tied = All-of_contains _ (id ∷ ids) λ x m.
        let (d, n, missing) = not-all-contains (contains completed) (deps x) (
          keep-nil (is_ready deps completed) (id ∷ ids) x
            (sym (is_nil-sort_by text_leb (ready deps completed (id ∷ ids))) ∙ stuck) m) in
        any-of_contains (contains (id ∷ ids)) (deps x) d n
          (or_right _ _ (sym (contains-append completed (id ∷ ids) d) ∙ closed x d m n) missing);
  }

  circular-IsKnot :
      (fuel : ℕ) (completed remaining stuck : List String)
      → IsClosed completed remaining
      → level_from deps fuel completed remaining ≡ some (circular stuck)
      → IsKnot deps stuck × Within stuck remaining
  unfolding level_from
  circular-IsKnot fuel completed [] stuck closed h = cc
  circular-IsKnot zero completed (id ∷ ids) stuck closed h = cc
  circular-IsKnot (suc fuel) completed (id ∷ ids) stuck closed h =
      elim (Bool-cases (is_nil (sort_by text_leb (ready deps completed (id ∷ ids))))) [
        | inl none_ready ↦
            let same : id ∷ ids ≡ stuck =
              circular_inj (sym (level_from_stuck deps fuel completed id ids none_ready) ∙ h) in
            subst (λ s. IsKnot deps s × Within s (id ∷ ids)) same
              (IsKnot-of_stuck completed id ids closed none_ready, λ x m. m)
        | inr moves ↦
            let (knot, within) =
              circular-IsKnot fuel _ (waiting deps completed (id ∷ ids)) stuck
                (IsClosed-waiting completed (id ∷ ids) closed)
                (put_level_circular _ _ stuck
                  (sym (level_from_round deps fuel completed id ids moves) ∙ h)) in
            (knot, λ x m. waiting-Within completed (id ∷ ids) x (within x m))
      ]

  -- A levelling leaves no room for a knot.
  no_knot :
      (levels : List (List String)) (completed knot : List String)
      → IsLevelled deps completed levels
      → IsKnot deps knot
      → ((x : String) → contains knot x ≡ true → contains completed x ≡ false)
      → Within knot (flatten levels)
      → ⊥
  unfolding flatten
  no_knot [] completed [] l k apart within = cc k.inhabited
  no_knot [] completed (x ∷ knot) l k apart within = cc (within x (ground (arith, eq_refl x)))
  no_knot (level ∷ levels) completed knot l k apart within =
      no_knot levels (completed ++ level) knot l.1 k
        (λ x m. contains-append completed level x ∙ ap₂ ◌||◌ (apart x m) (off_level x m))
        (λ x m.
          or_right _ _ (sym (contains-append level (flatten levels) x) ∙ within x m)
            (off_level x m))
    where
      off_level : (x : String) → contains knot x ≡ true → contains level x ≡ false
      off_level x m = elim (Bool-cases (contains level x)) [
        | inr off ↦ off
        | inl on ↦
            let (d, n, tied) =
              any-contains (contains knot) (deps x) (All-contains _ knot x k.tied m) in
            let done =
              all-contains (contains completed) (deps x) d (All-contains _ level x l.0 on) n in
            absurd (ground (arith, apart d tied, done))
      ]

  -- Where every dependency is among the names, the loop with one round of fuel for each name has one
  -- of two results: levels that respect the dependencies and hold each name as often as it was
  -- given, and then there is no knot among the names; or a knot among the names.
  pub levelling_decides :
      (ids : List String)
      → ((x d : String)
          → contains ids x ≡ true
          → contains (deps x) d ≡ true
          → contains ids d ≡ true)
      → ((levels : List (List String)) × (level_from deps (length ids) [] ids
            ≡ some (placed levels))
          × IsLevelled deps [] levels
          × Perm (flatten levels) ids
          × ((knot : List String) → IsKnot deps knot → Within knot ids → ⊥))
        ⊎ ((stuck : List String) × (level_from deps (length ids) [] ids ≡ some (circular stuck))
            × IsKnot deps stuck
            × Within stuck ids)
  levelling_decides ids closed = by_result (level_from_ends deps (length ids) [] ids le_self)
    where
      le_self : length ids ≤ length ids
      le_self = omega arith

      by_result :
          (l : Levelling) × (level_from deps (length ids) [] ids ≡ some l)
          → ((levels : List (List String)) × (level_from deps (length ids) [] ids
                ≡ some (placed levels))
              × IsLevelled deps [] levels
              × Perm (flatten levels) ids
              × ((knot : List String) → IsKnot deps knot → Within knot ids → ⊥))
            ⊎ ((stuck : List String) × (level_from deps (length ids) [] ids ≡ some (circular stuck))
                × IsKnot deps stuck
                × Within stuck ids)
      by_result (placed levels, ends) =
          let (ordered, same) = level_from_sound deps (length ids) [] ids levels ends in
          inl (
            levels,
            ends,
            ordered,
            same,
            λ knot k within.
                no_knot levels [] knot ordered k (λ x m. refl)
                  (λ x m. contains-perm x same ∙ within x m),
          )
      by_result (circular stuck, ends) =
          let (knot, within) = circular-IsKnot (length ids) [] ids stuck closed ends in
          inr (stuck, ends, knot, within)
