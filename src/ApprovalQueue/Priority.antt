-- ===== src/ApprovalQueue/Priority.antt =====
-- In which order the queue offers its pending items.
use mathlib.Core.List.{Perm, filter_map}
use mathlib.Core.List.Perm
use yoma.Prelude.{
  ℕ, Bool, ◌≡◌, refl, true, false, not, List, [], ◌∷◌, Option, none, some, ◌==◌, inl, inr, All,
  keep, contains, All-of_contains, eq_refl, is_unique, arith, ap, sym, ◌∙◌, subst, Bool-cases,
  eq_iff, if◌then◌else◌, text_leb, text_leb_other, eqb, leb,
}
use yoma.Dict
use yoma.Dict.{Dict}
use yoma.Sorted.{sort_by-perm, IsSorted, sort_by-IsSorted}
use yoma.Approval.Model.{is_pending}
use yoma.ApprovalQueue.Model.{ApprovalQueueItem}
use yoma.ApprovalQueue.Queue.{
  Queue, items, pending_items, priority_rank, item_leb, prioritized_pending,
}

module _ {ℓ κ} {A : Type ℓ} {B : Type κ} where
  filter_map-cong :
      (f g : A → Option B) (xs : List A)
      → All (λ x. f x ≡ g x) xs
      → filter_map f xs ≡ filter_map g xs
  unfolding filter_map
  filter_map-cong f g [] h = refl
  filter_map-cong f g (x ∷ xs) h = rw (h.0, filter_map-cong f g xs h.1) refl

keep-filter_map {ℓ} :
    {A : Type ℓ} (p : A → Bool) (xs : List A)
    → keep p xs ≡ filter_map (λ x. if p x then some x else none) xs
unfolding filter_map
keep-filter_map p [] = refl
keep-filter_map p (x ∷ xs) = elim (Bool-cases (p x)) [
  | inl holds ↦ rw (holds, keep-filter_map p xs) refl
  | inr fails ↦ rw (fails, keep-filter_map p xs) refl
]

keep-perm {ℓ} :
    {A : Type ℓ} (p : A → Bool) {xs ys : List A} → Perm xs ys → Perm (keep p xs) (keep p ys)
keep-perm p {xs = xs} {ys = ys} same =
    rw (keep-filter_map p xs, keep-filter_map p ys) (Perm.filter_map _ same)

-- With different keys, looking each key up gives the values.
values-lookup {ℓ} :
    {V : Type ℓ} (d : Dict V)
    → is_unique (Dict.keys d) ≡ true
    → filter_map (Dict.get d) (Dict.keys d) ≡ Dict.values d
unfolding filter_map Dict.get
values-lookup [] h = refl
values-lookup ((k, v) ∷ d) h = rw (eq_refl k) (
    ap (λ vs. v ∷ vs)
      (filter_map-cong (Dict.get ((k, v) ∷ d)) (Dict.get d) (Dict.keys d) behind
        ∙ values-lookup d (ground (arith, h))))
  where
    absent : is_unique (k ∷ Dict.keys d) ≡ true → contains (Dict.keys d) k ≡ false
    absent e = ground (arith, e)

    behind : All (λ x. Dict.get ((k, v) ∷ d) x ≡ Dict.get d x) (Dict.keys d)
    behind = All-of_contains _ (Dict.keys d) λ x m. elim (Bool-cases (k == x)) [
      | inr other ↦ rw other refl
      | inl same ↦
          absurd (differ (sym (ap (contains (Dict.keys d)) ((eq_iff k x).0 same) ∙ m) ∙ absent h))
    ]
      where
        differ : true ≡ false → ⊥
        differ e = cc

-- A comparison by numbers, and where they are equal by what follows.
lexicographic :
    (a b : ℕ) (x y : Bool)
    → (x ≡ false → y ≡ true)
    → (if not (eqb a b) then leb a b else x) ≡ false
    → (if not (eqb b a) then leb b a else y) ≡ true
lexicographic a b true y h k = ground (arith, k)
lexicographic a b false y h k = ground (arith, k, h refl)

item_leb_total : (i j : ApprovalQueueItem) → item_leb i j ≡ false → item_leb j i ≡ true
item_leb_total i j = lexicographic (priority_rank i.priority) (priority_rank j.priority) _ _ (
    lexicographic i.scheduled_at.instant j.scheduled_at.instant _ _ (
      lexicographic i.created_at.instant j.created_at.instant _ _
        (text_leb_other i.queue_item_id j.queue_item_id)))

-- The items are the values of the dictionary, in the order of their keys.
items-perm : (q : Queue) → is_unique (Dict.keys q) ≡ true → Perm (items q) (Dict.values q)
unfolding items
items-perm q unique =
    subst (Perm (items q)) (values-lookup q unique)
      (Perm.filter_map (Dict.get q) (sort_by-perm text_leb (Dict.keys q)))

-- With different keys, `prioritized_pending` gives exactly the pending items of the queue, each
-- once, in the order of rank, time of the schedule, time of creation, and id.
pub prioritized_pending_lem :
    (q : Queue)
    → is_unique (Dict.keys q) ≡ true
    → IsSorted item_leb (prioritized_pending q)
      × Perm
          (prioritized_pending q)
          (keep (λ (i : ApprovalQueueItem). is_pending i.status) (Dict.values q))
unfolding prioritized_pending pending_items
prioritized_pending_lem q unique = (
  sort_by-IsSorted item_leb item_leb_total (pending_items q),
  Perm.trans (sort_by-perm item_leb (pending_items q))
      (keep-perm (λ (i : ApprovalQueueItem). is_pending i.status) (items-perm q unique)),
)
