-- ===== src/Schedule/Lifetime.antt =====
-- Schedules over sequences of calls of `schedule`, `ready`, `cancel`, `complete` and `clear`.
use yoma.Prelude.{
  any, Bool-cases, String, ◌≡◌, refl, true, false, List, [], ◌∷◌, some, arith, ◌⊎◌, inl, inr, All,
  ap, sym, ◌∙◌, subst,
}
use yoma.Dict
use yoma.Value.{DateTime, earlier}
use yoma.Schedule.Model.{scheduled, ready, cancelled, is_closed, ExecutionSchedule}
use yoma.Schedule.Engine.{SchedulingEngine, moved}
use yoma.Schedule.Renewed.{Renewed}
use yoma.Schedule.Steps.{Step, due, dropped, done, Progress, stays, moves, Came}
use yoma.Schedule.Calls.{
  Op, schedules, readies, cancels, completes, clears, is_clear, Given, perform_all,
  perform_all-Came, cleared-Renewed,
}

-- What stands under an id behind calls, where `s` stood before them.
pub data Lasts (T : DateTime → Type 0) (k : String) (s : ExecutionSchedule) (ops : List Op)
    (e : SchedulingEngine) : Type 0 where
  kept : any is_clear ops ≡ false → Came T k s e → Lasts T k s ops e
  cleared : any is_clear ops ≡ true → Renewed T k e → Lasts T k s ops e

module _ (strftime : DateTime → String) where
  -- Without `clear` the schedule lasts.
  pub schedule_lasts :
      (T : DateTime → Type 0) (k : String) (s : ExecutionSchedule) (e : SchedulingEngine)
      (ops : List Op)
      → All (Given T) ops
      → any is_clear ops ≡ false
      → Dict.get e.schedules k ≡ some s
      → Came T k s (perform_all strftime e ops)
  schedule_lasts T k s e ops g never h =
      perform_all-Came strftime T k s e ops g never
        (record { now = s; stands = h; progress = stays })

  -- Let a schedule stand under an id, and take any calls of `schedule`, `ready`, `cancel`, `complete`
  -- and `clear`, whose times for `ready` are in `T`. If none is `clear`, a schedule stands there still,
  -- and it has come from the first one by the moves of the state machine alone, where only a due time
  -- of `T` makes it ready. If one is `clear`, nothing stands there, or a schedule that has come in the
  -- same way from one that was entered as scheduled.
  pub schedule_progresses :
      (T : DateTime → Type 0) (k : String) (s : ExecutionSchedule) (e : SchedulingEngine)
      (ops : List Op)
      → All (Given T) ops
      → Dict.get e.schedules k ≡ some s
      → Lasts T k s ops (perform_all strftime e ops)
  schedule_progresses T k s e ops g h = elim (Bool-cases (any is_clear ops)) [
    | inl gone ↦ cleared gone (cleared-Renewed strftime T k ops e g gone)
    | inr never ↦ kept never (schedule_lasts T k s e ops g never h)
  ]

abbrev AnyTime : DateTime → Type 0
AnyTime now = Unit

Given-any : (op : Op) → Given AnyTime op
Given-any (schedules p at created_at metadata) = tt
Given-any (readies id now) = tt
Given-any (cancels id) = tt
Given-any (completes id) = tt
Given-any clears = tt

All-Given_any : (ops : List Op) → All (Given AnyTime) ops
All-Given_any [] = tt
All-Given_any (op ∷ ops) = (Given-any op, All-Given_any ops)

module _ {T : DateTime → Type 0} where
  closed_step : {s t : ExecutionSchedule} → Step T s t → is_closed s.status ≡ true → ⊥
  closed_step (due now given waiting late) h = ground (arith, waiting, h)
  closed_step (dropped going) h = cc
  closed_step (done is_due) h = ground (arith, is_due, h)

  closed-Progress : {s t : ExecutionSchedule} → Progress T s t → is_closed s.status ≡ true → s ≡ t
  closed-Progress stays h = refl
  closed-Progress (moves p step) h = absurd (
      closed_step step
        (subst (λ (u : ExecutionSchedule). is_closed u.status ≡ true) (closed-Progress p h) h))

module _ (strftime : DateTime → String) where
  -- A cancelled or completed schedule is final: no sequence of calls other than `clear` changes it.
  pub closed_schedule_final :
      (k : String) (s : ExecutionSchedule) (e : SchedulingEngine) (ops : List Op)
      → Dict.get e.schedules k ≡ some s
      → is_closed s.status ≡ true
      → any is_clear ops ≡ false
      → Dict.get (perform_all strftime e ops).schedules k ≡ some s
  closed_schedule_final k s e ops h closed never =
      let c = schedule_lasts strftime AnyTime k s e ops (All-Given_any ops) never h in
      c.stands ∙ ap some (sym (closed-Progress c.progress closed))

-- The times before that of a schedule.
abbrev pub Before : ExecutionSchedule → DateTime → Type 0
Before s now = earlier now s.scheduled_at ≡ true

-- What an early schedule can be: itself, or cancelled.
abbrev pub IsWaiting : ExecutionSchedule → ExecutionSchedule → Type 0
IsWaiting s t = (s ≡ t) ⊎ (moved s cancelled ≡ t)

not_cancelled_scheduled : cancelled ≡ scheduled → ⊥
not_cancelled_scheduled h = cc

early_due :
    (s t : ExecutionSchedule) (now : DateTime)
    → IsWaiting s t
    → Before s now
    → t.status ≡ scheduled
    → earlier now t.scheduled_at ≡ false
    → ⊥
early_due s t now (inl same) early waiting late =
    true_false (sym early ∙ ap (λ (u : ExecutionSchedule). earlier now u.scheduled_at) same ∙ late)
  where
    true_false : true ≡ false → ⊥
    true_false h = cc
early_due s t now (inr gone) early waiting late =
    not_cancelled_scheduled (ap (λ (u : ExecutionSchedule). u.status) gone ∙ waiting)

early_dropped : (s t : ExecutionSchedule) → IsWaiting s t → IsWaiting s (moved t cancelled)
early_dropped s t (inl same) = inr (ap (λ u. moved u cancelled) same)
early_dropped s t (inr gone) = inr (ap (λ u. moved u cancelled) gone)

early_done : (s t : ExecutionSchedule) → IsWaiting s t → s.status ≡ scheduled → t.status ≡ ready → ⊥
early_done s t (inl same) waiting is_due =
    clash (sym waiting ∙ ap (λ (u : ExecutionSchedule). u.status) same ∙ is_due)
  where
    clash : scheduled ≡ ready → ⊥
    clash h = cc
early_done s t (inr gone) waiting is_due =
    clash (ap (λ (u : ExecutionSchedule). u.status) gone ∙ is_due)
  where
    clash : cancelled ≡ ready → ⊥
    clash h = cc

early-Progress :
    (s : ExecutionSchedule) {t : ExecutionSchedule}
    → Progress (Before s) s t
    → s.status ≡ scheduled
    → IsWaiting s t
early-Progress s stays h = inl refl
early-Progress s (moves {t = t} p (due now given waiting late)) h =
    absurd (early_due s t now (early-Progress s p h) given waiting late)
early-Progress s (moves {t = t} p (dropped going)) h = early_dropped s t (early-Progress s p h)
early-Progress s (moves {t = t} p (done is_due)) h =
    absurd (early_done s t (early-Progress s p h) h is_due)

module _ (strftime : DateTime → String) where
  -- A schedule that is not ready yet, and any calls of `schedule`, `ready`, `cancel` and `complete`, none
  -- of `clear`, that give `ready` no time from the schedule's own on: it stays as it is or is cancelled,
  -- and is neither ready nor completed, in whatever order the calls come.
  pub early_schedule_waits :
      (k : String) (s : ExecutionSchedule) (e : SchedulingEngine) (ops : List Op)
      → All (Given (Before s)) ops
      → Dict.get e.schedules k ≡ some s
      → s.status ≡ scheduled
      → any is_clear ops ≡ false
      → (t : ExecutionSchedule) × (Dict.get (perform_all strftime e ops).schedules k ≡ some t)
        × IsWaiting s t
  early_schedule_waits k s e ops g h waiting never =
      let c = schedule_lasts strftime (Before s) k s e ops g never h in
      (c.now, c.stands, early-Progress s c.progress waiting)
