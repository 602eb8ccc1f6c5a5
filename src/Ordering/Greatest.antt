-- ===== src/Ordering/Greatest.antt =====
-- The names that a circle stops: the greatest set of names that wait for one another.
use mathlib.Core.Path.{fun_ext, ap₂}
use yoma.Prelude.{
  ℕ, zero, suc, String, ◌≡◌, refl, true, false, not, ◌&&◌, ◌||◌, List, [], ◌∷◌, ◌++◌, some, any,
  contains, contains-append, contains-keep, keep, is_nil, is_unique, is_unique-perm, text_leb,
  text_leb_other, All-contains, All-of_contains, any-contains, all-contains, arith, Bool-cases, inl,
  inr, ap, sym, ◌∙◌, subst, Bool,
}
use yoma.Sorted.{
  sort_by, sort_by-perm, contains-sort_by, is_nil-sort_by, IsSorted, sort_by-IsSorted,
}
use yoma.Ordering.Levels.{circular, is_ready, ready, waiting, level_from}
use yoma.Ordering.Sound.{IsKnot, level_from_round, level_from_stuck, put_level_circular}
use yoma.Ordering.Knots.{Within, circular_inj, contains-waiting, contains-level}

is_unique-keep :
    (p : String → Bool) (xs : List String) → is_unique xs ≡ true → is_unique (keep p xs) ≡ true
is_unique-keep p [] h = refl
is_unique-keep p (x ∷ xs) h =
    ground (arith, h, contains-keep p xs x, is_unique-keep p xs (ground (arith, h)))

and_not : (a b : Bool) → a ≡ false → (a && b) ≡ false
and_not a b h = ground arith

both : (a b : Bool) → a ≡ false → b ≡ true → (not a && b) ≡ true
both a b h k = ground arith

module _ (deps : String → List String) where
  -- A name of a knot that has nothing completed is not ready.
  not_ready :
      (completed knot : List String) (x : String)
      → IsKnot deps knot
      → ((y : String) → contains knot y ≡ true → contains completed y ≡ false)
      → contains knot x ≡ true
      → is_ready deps completed x ≡ false
  not_ready completed knot x k apart m = elim (Bool-cases (is_ready deps completed x)) [
    | inr waits ↦ waits
    | inl free ↦
        let (d, n, tied) = any-contains (contains knot) (deps x) (All-contains _ knot x k.tied m) in
        let done = all-contains (contains completed) (deps x) d free n in
        absurd (ground (arith, apart d tied, done))
  ]

  -- A knot among the remaining names is among those that the loop stops at.
  pub circular-greatest :
      (fuel : ℕ) (completed remaining stuck knot : List String)
      → level_from deps fuel completed remaining ≡ some (circular stuck)
      → IsKnot deps knot
      → ((y : String) → contains knot y ≡ true → contains completed y ≡ false)
      → Within knot remaining
      → Within knot stuck
  unfolding level_from
  circular-greatest fuel completed [] stuck knot h k apart within = cc
  circular-greatest zero completed (id ∷ ids) stuck knot h k apart within = cc
  circular-greatest (suc fuel) completed (id ∷ ids) stuck knot h k apart within =
      elim (Bool-cases (is_nil (sort_by text_leb (ready deps completed (id ∷ ids))))) [
        | inl none_ready ↦
            subst (Within knot)
              (circular_inj (sym (level_from_stuck deps fuel completed id ids none_ready) ∙ h))
              within
        | inr moves ↦
            circular-greatest fuel (completed ++ sort_by text_leb (ready deps completed (id ∷ ids)))
              (waiting deps completed (id ∷ ids)) stuck knot
              (put_level_circular _ _ stuck
                (sym (level_from_round deps fuel completed id ids moves) ∙ h))
              k
              (λ x m.
                contains-append completed (sort_by text_leb (ready deps completed (id ∷ ids))) x
                ∙ ap₂ ◌||◌ (apart x m) (
                    contains-level deps completed (id ∷ ids) x
                    ∙ and_not _ _ (not_ready completed knot x k apart m)))
              (λ x m.
                contains-waiting deps completed (id ∷ ids) x
                ∙ both _ _ (not_ready completed knot x k apart m) (within x m))
      ]

  -- Names that are different at first are different where the loop stops.
  pub circular-is_unique :
      (fuel : ℕ) (completed remaining stuck : List String)
      → level_from deps fuel completed remaining ≡ some (circular stuck)
      → is_unique remaining ≡ true
      → is_unique stuck ≡ true
  unfolding level_from waiting
  circular-is_unique fuel completed [] stuck h u = cc
  circular-is_unique zero completed (id ∷ ids) stuck h u = cc
  circular-is_unique (suc fuel) completed (id ∷ ids) stuck h u =
      elim (Bool-cases (is_nil (sort_by text_leb (ready deps completed (id ∷ ids))))) [
        | inl none_ready ↦
            ap is_unique (
              sym (circular_inj (sym (level_from_stuck deps fuel completed id ids none_ready) ∙ h)))
            ∙ u
        | inr moves ↦
            circular-is_unique fuel
              (completed ++ sort_by text_leb (ready deps completed (id ∷ ids)))
              (waiting deps completed (id ∷ ids)) stuck
              (put_level_circular _ _ stuck
                (sym (level_from_round deps fuel completed id ids moves) ∙ h))
              (is_unique-keep (λ x. not (is_ready deps completed x)) (id ∷ ids) u)
      ]

  -- The greatest knot among the names, sorted and each name once; no other list is it.
  pub record IsGreatestKnot (ids names : List String) : Type 0 where
    pub knot : IsKnot deps names
    pub within : Within names ids
    pub greatest : (other : List String) → IsKnot deps other → Within other ids → Within other names
    pub unique : is_unique names ≡ true
    pub sorted : IsSorted text_leb names

  IsKnot-sort_by : (names : List String) → IsKnot deps names → IsKnot deps (sort_by text_leb names)
  IsKnot-sort_by names k =
      let same : contains names ≡ contains (sort_by text_leb names) =
        fun_ext λ x. sym (contains-sort_by text_leb names x) in
      record {
        inhabited = is_nil-sort_by text_leb names ∙ k.inhabited;
        tied = All-of_contains _ (sort_by text_leb names) λ x m.
            ap (λ f. any f (deps x)) (sym same)
            ∙ All-contains (λ y. any (contains names) (deps y) ≡ true) names x k.tied
                (sym (contains-sort_by text_leb names x) ∙ m);
      }

  pub stuck-IsGreatestKnot :
      (fuel : ℕ) (ids stuck : List String)
      → level_from deps fuel [] ids ≡ some (circular stuck)
      → is_unique ids ≡ true
      → IsKnot deps stuck
      → Within stuck ids
      → IsGreatestKnot ids (sort_by text_leb stuck)
  stuck-IsGreatestKnot fuel ids stuck h u k within = record {
    knot = IsKnot-sort_by stuck k;
    within = λ x m. within x (sym (contains-sort_by text_leb stuck x) ∙ m);
    greatest = λ other tied among x m.
        contains-sort_by text_leb stuck x
        ∙ circular-greatest fuel [] ids stuck other h tied (λ y n. refl) among x m;
    unique =
        is_unique-perm (sort_by-perm text_leb stuck) ∙ circular-is_unique fuel [] ids stuck h u;
    sorted = sort_by-IsSorted text_leb text_leb_other stuck;
  }
