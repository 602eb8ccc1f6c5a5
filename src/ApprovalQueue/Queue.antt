-- ===== src/ApprovalQueue/Queue.antt =====
-- `HumanApprovalQueue`; its state is the dictionary of items. The approval engine keeps no state.
use mathlib.Core.List.{filter_map}
use yoma.Prelude.{
  ℕ, String, Bool, true, false, not, List, [], ◌∷◌, Option, none, some, ◌==◌, is_empty, concat,
  keep, length, text_leb, eqb, leb, if◌then◌else◌,
}
use yoma.Result.{Result, ok, err, value_error, key_error, raise_if}
use yoma.Exec.{Exec, return, lift, gets, modify, ◌>>=◌, ◌>>◌}
use yoma.Dict
use yoma.Dict.{Dict}
use yoma.Sorted.{sort_by}
use yoma.Value.{Value, Mapping, DateTime}
use yoma.Plan.{ActionPlan}
use yoma.Approval.Model.{ActionApprovalWorkflow, is_pending, is_approved}
use yoma.Approval.Engine as Approval
use yoma.Schedule.Model.{ScheduleStatus, scheduled, ready, cancelled, completed, ExecutionSchedule}
use yoma.ApprovalQueue.Model.{ApprovalQueueItem, item_post_init}

abbrev pub Queue : Type 0
Queue = Dict ApprovalQueueItem

abbrev pub queue_item_id : ExecutionSchedule → String
queue_item_id s = concat "AQITEM-" s.schedule_id

-- The text of a schedule's status.
abbrev pub status_text : ScheduleStatus → String
status_text scheduled = "scheduled"
status_text ready = "ready"
status_text cancelled = "cancelled"
status_text completed = "completed"

abbrev pub item_of : ExecutionSchedule → ActionPlan → ActionApprovalWorkflow → ApprovalQueueItem
item_of s plan w = record {
  queue_item_id = queue_item_id s;
  schedule_id = s.schedule_id;
  execution_plan_id = s.execution_plan_id;
  plan_id = plan.plan_id;
  decision_id = plan.decision_id;
  priority = plan.priority;
  scheduled_at = s.scheduled_at;
  created_at = s.created_at;
  workflow = w;
  status = w.status;
  requires_human_approval = true;
  executable = false;
  metadata =
      ("schedule_status", Value.text (status_text s.status))
      ∷ ("action_count", Value.number (length s.ordered_action_ids))
      ∷ [];
}

-- `ApprovalQueueItem(...)`, stored under an id and returned.
unfoldable pub enter : String → ApprovalQueueItem → Exec Queue ApprovalQueueItem
enter id i = do i' ← lift (item_post_init i); modify (λ q. Dict.put q id i'); return i'

abbrev pub known_or :
    Option ApprovalQueueItem → Exec Queue ApprovalQueueItem → Exec Queue ApprovalQueueItem
known_or (some i) m = return i
known_or none m = m

unfoldable pub enqueue_new : ExecutionSchedule → ActionPlan → Exec Queue ApprovalQueueItem
enqueue_new s plan = do w ← lift (Approval.create plan); enter (queue_item_id s) (item_of s plan w)

-- A schedule has no field `plan_id`, so the source's test of it never fires.
unfoldable pub enqueue : ExecutionSchedule → ActionPlan → Exec Queue ApprovalQueueItem
enqueue s plan = do
  lift (
      raise_if (not (s.decision_id == plan.decision_id))
        (value_error "schedule and plan decision IDs do not match"))
  lift (raise_if (is_empty s.execution_plan_id) (value_error "execution_plan_id is required"))
  existing ← gets (λ q. Dict.get q (queue_item_id s))
  known_or existing (enqueue_new s plan)

abbrev pub found : String → Option ApprovalQueueItem → Result ApprovalQueueItem
found id none = err (key_error (concat "unknown approval queue item: " id))
found id (some i) = ok i

unfoldable pub get : String → Exec Queue ApprovalQueueItem
get id q = (found id (Dict.get q id), q)

-- `_replace`
abbrev pub replaced : ApprovalQueueItem → ActionApprovalWorkflow → ApprovalQueueItem
replaced i w = record i {
  workflow = w;
  status = w.status;
  requires_human_approval = true;
  executable = false;
}

-- What `approve`, `reject` and `modify` share: a call of the approval engine on the item's workflow.
unfoldable pub decide_with :
    String → (ActionApprovalWorkflow → Result ActionApprovalWorkflow) → Exec Queue ApprovalQueueItem
decide_with id f = do i ← get id; w ← lift (f i.workflow); enter id (replaced i w)

unfoldable pub approve : String → String → DateTime → String → Exec Queue ApprovalQueueItem
approve id who at comment = decide_with id (λ w. Approval.approve w who at comment)

unfoldable pub reject : String → String → DateTime → String → Exec Queue ApprovalQueueItem
reject id who at comment = decide_with id (λ w. Approval.reject w who at comment)

unfoldable pub modify_item :
    String → String → DateTime → Mapping → String → Exec Queue ApprovalQueueItem
modify_item id who at changes comment =
    decide_with id (λ w. Approval.modify w who at changes comment)

unfoldable pub clear : Exec Queue (Unit {0})
clear = modify (λ q. [])

-- `self._items[key]` for each key in order; every key is there.
unfoldable pub items : Queue → List ApprovalQueueItem
items q = filter_map (Dict.get q) (sort_by text_leb (Dict.keys q))

unfoldable pub pending_items : Queue → List ApprovalQueueItem
pending_items q = keep (λ (i : ApprovalQueueItem). is_pending i.status) (items q)

unfoldable pub approved_items : Queue → List ApprovalQueueItem
approved_items q = keep (λ (i : ApprovalQueueItem). is_approved i.status) (items q)

-- `priority_rank.get(priority, 99)`
abbrev pub priority_rank : String → ℕ
priority_rank priority =
    if priority == "critical"
    then 0
    else if priority == "high"
    then 1
    else if priority == "normal"
    then 2
    else if priority == "low"
    then 3
    else 99

-- The order of the tuples of rank, time of the schedule, time of creation, and id.
abbrev pub item_leb : ApprovalQueueItem → ApprovalQueueItem → Bool
item_leb i j =
    if not (eqb (priority_rank i.priority) (priority_rank j.priority))
    then leb (priority_rank i.priority) (priority_rank j.priority)
    else if not (eqb i.scheduled_at.instant j.scheduled_at.instant)
    then leb i.scheduled_at.instant j.scheduled_at.instant
    else if not (eqb i.created_at.instant j.created_at.instant)
    then leb i.created_at.instant j.created_at.instant
    else text_leb i.queue_item_id j.queue_item_id

unfoldable pub prioritized_pending : Queue → List ApprovalQueueItem
prioritized_pending q = sort_by item_leb (pending_items q)
