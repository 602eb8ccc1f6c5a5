-- ===== src/Schedule/Calls.antt =====
-- Sequences of calls of `schedule`, `ready`, `cancel`, `complete` and `clear`.
use yoma.Prelude.{
  any, Bool, Bool-cases, String, ◌≡◌, true, false, List, [], ◌∷◌, arith, inl, inr, All,
}
use yoma.Value.{Mapping, DateTime}
use yoma.MultiAction.Model.{MultiActionExecutionPlan}
use yoma.Schedule.Model.{ExecutionSchedule}
use yoma.Schedule.Engine.{SchedulingEngine, schedule, make_ready, cancel, complete, clear}
use yoma.Schedule.Progress.{Came-schedule, Came-make_ready, Came-cancel, Came-complete}
use yoma.Schedule.Renewed.{
  Renewed, Renewed-schedule, Renewed-make_ready, Renewed-cancel, Renewed-complete, Renewed-clear,
}
use yoma.Schedule.Steps.{Came}

pub data Op : Type 0 where
  schedules : MultiActionExecutionPlan → DateTime → DateTime → Mapping → Op
  readies : String → DateTime → Op
  cancels completes : String → Op
  clears : Op

abbrev pub is_clear : Op → Bool
is_clear clears = true
is_clear _ = false

-- The times that a call gives to `ready` are in `T`.
abbrev pub Given : (DateTime → Type 0) → Op → Type 0
Given T (schedules p at created_at metadata) = Unit
Given T (readies id now) = T now
Given T (cancels id) = Unit
Given T (completes id) = Unit
Given T clears = Unit

module _ (strftime : DateTime → String) where
  -- The engine that a call leaves, whether it returns or raises.
  unfoldable pub perform : SchedulingEngine → Op → SchedulingEngine
  perform e (schedules p at created_at metadata) = (schedule strftime p at created_at metadata e).1
  perform e (readies id now) = (make_ready id now e).1
  perform e (cancels id) = (cancel id e).1
  perform e (completes id) = (complete id e).1
  perform e clears = (clear e).1

  unfoldable pub perform_all : SchedulingEngine → List Op → SchedulingEngine
  perform_all e [] = e
  perform_all e (op ∷ ops) = perform_all (perform e op) ops

  perform-Came :
      (T : DateTime → Type 0) (k : String) (s : ExecutionSchedule) (e : SchedulingEngine) (op : Op)
      → Given T op
      → is_clear op ≡ false
      → Came T k s e
      → Came T k s (perform e op)
  unfolding perform
  perform-Came T k s e (schedules p at created_at metadata) g kept c =
      Came-schedule strftime k s p at created_at metadata e c
  perform-Came T k s e (readies id now) g kept c = Came-make_ready k id now s e g c
  perform-Came T k s e (cancels id) g kept c = Came-cancel k id s e c
  perform-Came T k s e (completes id) g kept c = Came-complete k id s e c
  perform-Came T k s e clears g kept c = cc

  pub perform_all-Came :
      (T : DateTime → Type 0) (k : String) (s : ExecutionSchedule) (e : SchedulingEngine)
      (ops : List Op)
      → All (Given T) ops
      → any is_clear ops ≡ false
      → Came T k s e
      → Came T k s (perform_all e ops)
  unfolding perform_all
  perform_all-Came T k s e [] g kept c = c
  perform_all-Came T k s e (op ∷ ops) g kept c =
      perform_all-Came T k s (perform e op) ops g.1 (ground (arith, kept))
        (perform-Came T k s e op g.0 (ground (arith, kept)) c)

  perform-Renewed :
      (T : DateTime → Type 0) (k : String) (e : SchedulingEngine) (op : Op)
      → Given T op
      → Renewed T k e
      → Renewed T k (perform e op)
  unfolding perform
  perform-Renewed T k e (schedules p at created_at metadata) g r =
      Renewed-schedule k strftime p at created_at metadata e r
  perform-Renewed T k e (readies id now) g r = Renewed-make_ready k id now e g r
  perform-Renewed T k e (cancels id) g r = Renewed-cancel k id e r
  perform-Renewed T k e (completes id) g r = Renewed-complete k id e r
  perform-Renewed T k e clears g r = Renewed-clear k e

  perform_all-Renewed :
      (T : DateTime → Type 0) (k : String) (e : SchedulingEngine) (ops : List Op)
      → All (Given T) ops
      → Renewed T k e
      → Renewed T k (perform_all e ops)
  unfolding perform_all
  perform_all-Renewed T k e [] g r = r
  perform_all-Renewed T k e (op ∷ ops) g r =
      perform_all-Renewed T k (perform e op) ops g.1 (perform-Renewed T k e op g.0 r)

  clear-Renewed :
      (T : DateTime → Type 0) (k : String) (e : SchedulingEngine) (op : Op)
      → is_clear op ≡ true
      → Renewed T k (perform e op)
  unfolding perform
  clear-Renewed T k e (schedules p at created_at metadata) h = cc
  clear-Renewed T k e (readies id now) h = cc
  clear-Renewed T k e (cancels id) h = cc
  clear-Renewed T k e (completes id) h = cc
  clear-Renewed T k e clears h = Renewed-clear k e

  -- Calls with `clear` among them.
  pub cleared-Renewed :
      (T : DateTime → Type 0) (k : String) (ops : List Op) (e : SchedulingEngine)
      → All (Given T) ops
      → any is_clear ops ≡ true
      → Renewed T k (perform_all e ops)
  unfolding perform_all
  cleared-Renewed T k [] e g h = cc
  cleared-Renewed T k (op ∷ ops) e g h = elim (Bool-cases (is_clear op)) [
    | inl here ↦ perform_all-Renewed T k (perform e op) ops g.1 (clear-Renewed T k e op here)
    | inr later ↦ cleared-Renewed T k ops (perform e op) g.1 (ground (arith, h, later))
  ]
