-- ===== src/ApprovalQueue/Precedes.antt =====
-- Which of two items is to be decided first, said without the numbers of the sort key.
use yoma.Prelude.{
  ℕ, ◌<◌, String, Bool, ◌≡◌, true, false, not, List, [], ◌∷◌, ◌==◌, ◌&&◌, if◌then◌else◌, text_leb,
  eqb, leb, arith, Bool-cases, inl, inr,
}
use yoma.Sorted.{IsSorted}
use yoma.ApprovalQueue.Model.{ApprovalQueueItem}
use yoma.ApprovalQueue.Queue.{priority_rank, item_leb}

-- The named priorities, the most urgent first.
abbrev pub urgencies : List String
urgencies = "critical" ∷ "high" ∷ "normal" ∷ "low" ∷ []

-- `p` stands before `q` in a list, or `p` stands there and `q` does not.
abbrev pub stands_before : List String → String → String → Bool
stands_before [] p q = false
stands_before (x ∷ xs) p q =
    let rest = stands_before xs p q in
    if p == x then not (q == x) else (if q == x then false else rest)

abbrev pub is_more_urgent : String → String → Bool
is_more_urgent p q = stands_before urgencies p q

-- The same priority, or two that are not named.
abbrev pub is_as_urgent : String → String → Bool
is_as_urgent p q = not (is_more_urgent p q) && not (is_more_urgent q p)

-- The more urgent item first; of two as urgent the one scheduled earlier, then the one created
-- earlier, then the one whose id comes first.
pub data Precedes (i j : ApprovalQueueItem) : Type 0 where
  more_urgent : is_more_urgent i.priority j.priority ≡ true → Precedes i j
  scheduled_earlier :
      is_as_urgent i.priority j.priority ≡ true
      → i.scheduled_at.instant < j.scheduled_at.instant
      → Precedes i j
  created_earlier :
      is_as_urgent i.priority j.priority ≡ true
      → i.scheduled_at.instant ≡ j.scheduled_at.instant
      → i.created_at.instant < j.created_at.instant
      → Precedes i j
  id_first :
      is_as_urgent i.priority j.priority ≡ true
      → i.scheduled_at.instant ≡ j.scheduled_at.instant
      → i.created_at.instant ≡ j.created_at.instant
      → text_leb i.queue_item_id j.queue_item_id ≡ true
      → Precedes i j

abbrev pub FirstPrecedes : ApprovalQueueItem → List ApprovalQueueItem → Type 0
FirstPrecedes i [] = Unit
FirstPrecedes i (j ∷ js) = Precedes i j

-- Each item is to be decided before the next.
abbrev pub AreInTurn : List ApprovalQueueItem → Type 0
AreInTurn [] = Unit
AreInTurn (i ∷ is) = FirstPrecedes i is × AreInTurn is

rank_before :
    (p q : String)
    → leb (priority_rank p) (priority_rank q) ≡ true
    → eqb (priority_rank p) (priority_rank q) ≡ false
    → is_more_urgent p q ≡ true
rank_before p q h k = ground arith

rank_same :
    (p q : String) → eqb (priority_rank p) (priority_rank q) ≡ true → is_as_urgent p q ≡ true
rank_same p q h = ground arith

-- A comparison by numbers: where they differ they decide, and else what follows.
below :
    (a b : ℕ) (x : Bool) → eqb a b ≡ false → (if not (eqb a b) then leb a b else x) ≡ true → a < b
below a b x k h = ground (arith, k, h)

behind :
    (a b : ℕ) (x : Bool) → eqb a b ≡ true → (if not (eqb a b) then leb a b else x) ≡ true → x ≡ true
behind a b x k h = ground (arith, k, h)

item_leb-Precedes : (i j : ApprovalQueueItem) → item_leb i j ≡ true → Precedes i j
item_leb-Precedes i j h =
    elim (Bool-cases (eqb (priority_rank i.priority) (priority_rank j.priority))) [
      | inr differ ↦ more_urgent (rank_before i.priority j.priority (rw differ at h) differ)
      | inl same ↦
          let urgent = rank_same i.priority j.priority same in
          let by_times = behind _ _ _ same h in
          elim (Bool-cases (eqb i.scheduled_at.instant j.scheduled_at.instant)) [
            | inr apart ↦ scheduled_earlier urgent (below _ _ _ apart by_times)
            | inl at_once ↦
                let by_creation = behind _ _ _ at_once by_times in
                elim (Bool-cases (eqb i.created_at.instant j.created_at.instant)) [
                  | inr later ↦
                      created_earlier urgent (ground (arith, at_once))
                        (below _ _ _ later by_creation)
                  | inl together ↦
                      id_first urgent (ground (arith, at_once)) (ground (arith, together))
                        (behind _ _ _ together by_creation)
                ]
          ]
    ]

-- A list sorted by the key is in turn.
pub IsSorted-AreInTurn : (is : List ApprovalQueueItem) → IsSorted item_leb is → AreInTurn is
IsSorted-AreInTurn [] h = tt
IsSorted-AreInTurn (i ∷ []) h = (tt, tt)
IsSorted-AreInTurn (i ∷ j ∷ js) h = (item_leb-Precedes i j h.0, IsSorted-AreInTurn (j ∷ js) h.1)
