-- ===== src/Orchestration/Ids.antt =====
-- The entity of a dependency is read back from the dependency's id.
use Prim.Native.Char.{code}
use Prim.Native.String.append
use yoma.Prelude.{
  ℕ, zero, suc, ◌/◌, ◌%◌, String, Bool, ◌≡◌, refl, true, false, ◌&&◌, not, concat, decimal,
  decimal_from, digit, eqb, leb, ltb, if◌then◌else◌, arith, ap, sym, ◌∙◌, Bool-cases, inl, inr,
}
use yoma.Plan.{ActionPlanStep}
use yoma.Orchestration.Model.{DecisionDependency}
use yoma.Orchestration.Dependencies.{affected_user, affected_system, target_user, target_system}

-- A text behind as many characters as another has.
drop_as : String → String → String
drop_as String.[] s = s
drop_as (String.◌∷◌ c p) String.[] = String.[]
drop_as (String.◌∷◌ c p) (String.◌∷◌ d s) = drop_as p s

-- Two texts differ at a place that both have.
clashes : String → String → Bool
clashes String.[] q = false
clashes (String.◌∷◌ c p) String.[] = false
clashes (String.◌∷◌ c p) (String.◌∷◌ d q) =
    let rest = clashes p q in if eqb (code c) (code d) then rest else true

is_digit : ℕ → Bool
is_digit c = leb 48 c && leb c 57

are_digits : String → Bool
unfolding is_digit
are_digits String.[] = true
are_digits (String.◌∷◌ c s) = is_digit (code c) && are_digits s

after_digits : String → String
unfolding is_digit
after_digits String.[] = String.[]
after_digits (String.◌∷◌ c s) =
    let rest = after_digits s in if is_digit (code c) then rest else String.◌∷◌ c s

starts_plain : String → Bool
unfolding is_digit
starts_plain String.[] = false
starts_plain (String.◌∷◌ c s) = not (is_digit (code c))

drop_as-concat : (p s : String) → drop_as p (concat p s) ≡ s
unfolding drop_as
drop_as-concat String.[] s = append.nil s
drop_as-concat (String.◌∷◌ c p) s =
    ap (drop_as (String.◌∷◌ c p)) (append.cons c p s) ∙ drop_as-concat p s

clashes-concat : (p s q : String) → clashes p q ≡ true → clashes (concat p s) q ≡ true
unfolding clashes
clashes-concat String.[] s q h = cc
clashes-concat (String.◌∷◌ c p) s String.[] h = cc
clashes-concat (String.◌∷◌ c p) s (String.◌∷◌ d q) h =
    ap (λ t. clashes t (String.◌∷◌ d q)) (append.cons c p s)
    ∙ (elim (Bool-cases (eqb (code c) (code d))) [
      | inl same ↦ rw same (clashes-concat p s q (rw same at h))
      | inr other ↦ rw other refl
    ])

clashes_self : (p s : String) → clashes (concat p s) p ≡ false
unfolding clashes
clashes_self String.[] s = ap (λ t. clashes t String.[]) (append.nil s) ∙ nothing s
  where
    nothing : (t : String) → clashes t String.[] ≡ false
    nothing String.[] = refl
    nothing (String.◌∷◌ c t) = refl
clashes_self (String.◌∷◌ c p) s =
    ap (λ t. clashes t (String.◌∷◌ c p)) (append.cons c p s) ∙ ground (arith, clashes_self p s)

are_digits-concat :
    (s t : String) → are_digits s ≡ true → are_digits t ≡ true → are_digits (concat s t) ≡ true
unfolding are_digits
are_digits-concat String.[] t h k = ap are_digits (append.nil t) ∙ k
are_digits-concat (String.◌∷◌ c s) t h k =
    ap are_digits (append.cons c s t)
    ∙ ground (arith, h, are_digits-concat s t (ground (arith, h)) k)

are_digits-digit : (n : ℕ) → are_digits (digit n) ≡ true
unfolding are_digits is_digit
are_digits-digit n = either (eqb n 0) _ _ refl (
    either (eqb n 1) _ _ refl (
      either (eqb n 2) _ _ refl (
        either (eqb n 3) _ _ refl (
          either (eqb n 4) _ _ refl (
            either (eqb n 5) _ _ refl (
              either (eqb n 6) _ _ refl
                (either (eqb n 7) _ _ refl (either (eqb n 8) _ _ refl refl))))))))
  where
    either :
        (b : Bool) (x y : String)
        → are_digits x ≡ true
        → are_digits y ≡ true
        → are_digits (if b then x else y) ≡ true
    either true x y h k = h
    either false x y h k = k

are_digits-decimal_from : (fuel n : ℕ) → are_digits (decimal_from fuel n) ≡ true
unfolding decimal_from
are_digits-decimal_from zero n = are_digits-digit n
are_digits-decimal_from (suc fuel) n = elim (Bool-cases (ltb n 10)) [
  | inl small ↦ rw small (are_digits-digit n)
  | inr large ↦ rw large (
      are_digits-concat (decimal_from fuel (n / 10)) (digit (n % 10))
        (are_digits-decimal_from fuel (n / 10)) (are_digits-digit (n % 10)))
]

after_digits-concat :
    (s t : String) → are_digits s ≡ true → after_digits (concat s t) ≡ after_digits t
unfolding after_digits are_digits
after_digits-concat String.[] t h = ap after_digits (append.nil t)
after_digits-concat (String.◌∷◌ c s) t h =
    ap after_digits (append.cons c s t)
    ∙ ground (arith, h, after_digits-concat s t (ground (arith, h)))

after_digits-plain : (s t : String) → starts_plain s ≡ true → after_digits (concat s t) ≡ concat s t
unfolding after_digits starts_plain
after_digits-plain String.[] t h = cc
after_digits-plain (String.◌∷◌ c s) t h =
    ap after_digits (append.cons c s t) ∙ ground (arith, h) ∙ sym (append.cons c s t)

-- The entity behind the tag of its kind, and behind the number of a step if there is one.
kind_entity : String → String
unfolding clashes drop_as
kind_entity s = if clashes s "-USER-" then drop_as "-SYSTEM-" s else drop_as "-USER-" s

unfoldable pub tail_entity : String → String
unfolding kind_entity clashes drop_as after_digits
tail_entity s =
    if clashes s "-STEP-" then kind_entity s else kind_entity (after_digits (drop_as "-STEP-" s))

-- The entity in a dependency's id, for a plan.
unfoldable pub read_entity : String → String → String
unfolding drop_as tail_entity
read_entity plan_id id = tail_entity (drop_as plan_id (drop_as "DEP-" id))

kind-user : (id : String) → kind_entity (concat "-USER-" id) ≡ id
unfolding kind_entity
kind-user id = rw (clashes_self "-USER-" id) (drop_as-concat "-USER-" id)

kind-system : (id : String) → kind_entity (concat "-SYSTEM-" id) ≡ id
unfolding kind_entity clashes
kind-system id = rw (clashes-concat "-SYSTEM-" id "-USER-" refl) (drop_as-concat "-SYSTEM-" id)

tail-user : (id : String) → tail_entity (concat "-USER-" id) ≡ id
unfolding tail_entity clashes
tail-user id = rw (clashes-concat "-USER-" id "-STEP-" refl) (kind-user id)

tail-system : (id : String) → tail_entity (concat "-SYSTEM-" id) ≡ id
unfolding tail_entity clashes
tail-system id = rw (clashes-concat "-SYSTEM-" id "-STEP-" refl) (kind-system id)

tail-step :
    (n : ℕ) (tag id : String)
    → starts_plain tag ≡ true
    → tail_entity (concat "-STEP-" (concat (decimal n) (concat tag id)))
      ≡ kind_entity (concat tag id)
unfolding tail_entity decimal
tail-step n tag id plain =
    rw
      (
        clashes_self "-STEP-" (concat (decimal n) (concat tag id)),
        drop_as-concat "-STEP-" (concat (decimal n) (concat tag id)),
        after_digits-concat (decimal n) (concat tag id) (are_digits-decimal_from n n),
        after_digits-plain tag id plain,
      )
      refl

read-tail :
    (plan_id tail : String)
    → read_entity plan_id (concat "DEP-" (concat plan_id tail)) ≡ tail_entity tail
unfolding read_entity
read-tail plan_id tail =
    rw (drop_as-concat "DEP-" (concat plan_id tail), drop_as-concat plan_id tail) refl

-- A dependency whose id tells its entity.
abbrev pub IsOwn : String → DecisionDependency → Type 0
IsOwn plan_id d =
    (read_entity plan_id d.dependency_id ≡ d.entity_id)
    × ((rest : String) × (d.dependency_id ≡ concat "DEP-" rest))

module _ (plan_id : String) where
  own :
      (d : DecisionDependency) (tail : String)
      → d.dependency_id ≡ concat "DEP-" (concat plan_id tail)
      → tail_entity tail ≡ d.entity_id
      → IsOwn plan_id d
  own d tail e h =
      (ap (read_entity plan_id) e ∙ read-tail plan_id tail ∙ h, (concat plan_id tail, e))

  pub affected_user-IsOwn : (id : String) → IsOwn plan_id (affected_user plan_id id)
  affected_user-IsOwn id = own (affected_user plan_id id) (concat "-USER-" id) refl (tail-user id)

  pub affected_system-IsOwn : (id : String) → IsOwn plan_id (affected_system plan_id id)
  affected_system-IsOwn id =
      own (affected_system plan_id id) (concat "-SYSTEM-" id) refl (tail-system id)

  pub target_user-IsOwn :
      (s : ActionPlanStep) (id : String) → IsOwn plan_id (target_user plan_id s id)
  unfolding starts_plain
  target_user-IsOwn s id =
      own (target_user plan_id s id) _ refl (tail-step s.sequence "-USER-" id refl ∙ kind-user id)

  pub target_system-IsOwn :
      (s : ActionPlanStep) (id : String) → IsOwn plan_id (target_system plan_id s id)
  unfolding starts_plain
  target_system-IsOwn s id =
      own (target_system plan_id s id) _ refl
        (tail-step s.sequence "-SYSTEM-" id refl ∙ kind-system id)

-- No dependency's id is an action's.
pub dependency_action_differ : (s t : String) → concat "DEP-" s ≡ concat "MACT-" t → ⊥
unfolding clashes
dependency_action_differ s t e = differ (
    sym (clashes-concat "DEP-" s "MACT-" refl)
    ∙ ap (λ u. clashes u "MACT-") e
    ∙ clashes_self "MACT-" t)
  where
    differ : true ≡ false → ⊥
    differ h = cc
