-- ===== src/Schedule/Progress.antt =====
-- What each call does to a schedule that stands under an id.
use yoma.Prelude.{String, ◌≡◌, inl, inr, true, arith, Bool-cases, Option-cases, ap, sym, ◌∙◌}
use yoma.Dict
use yoma.Dict.{Dict}
use yoma.Value.{Mapping, DateTime, earlier}
use yoma.MultiAction.Model.{MultiActionExecutionPlan}
use yoma.Schedule.Model.{
  ScheduleStatus, scheduled, ready, cancelled, completed, is_scheduled, is_ready, is_closed,
  ExecutionSchedule,
}
use yoma.Schedule.Engine.{
  SchedulingEngine, known_or_enter, schedule, get, moved, make_ready, cancel, complete,
}
use yoma.Schedule.Keeps.{schedule-keeps}
use yoma.Schedule.Steps.{due, dropped, done, Came, no_value, Came-enter, moved_on}

is_scheduled-lem : (t : ScheduleStatus) → is_scheduled t ≡ true → t ≡ scheduled
is_scheduled-lem t h = ground arith

is_ready-lem : (t : ScheduleStatus) → is_ready t ≡ true → t ≡ ready
is_ready-lem t h = ground arith

pub Came-make_ready :
    {T : DateTime → Type 0} (k id : String) (now : DateTime) (s : ExecutionSchedule)
    (e : SchedulingEngine)
    → T now
    → Came T k s e
    → Came T k s (make_ready id now e).1
unfolding make_ready get
Came-make_ready k id now s e given c = elim (Option-cases (Dict.get e.schedules id)) [
  | inl unknown ↦ simp unknown c
  | inr (u, found) ↦ elim (Bool-cases now.aware) [
    | inr naive ↦ simp (found, naive) c
    | inl aware ↦ elim (Bool-cases (is_scheduled u.status)) [
      | inr other ↦ simp (found, aware, other) c
      | inl waiting ↦ elim (Bool-cases (earlier now u.scheduled_at)) [
        | inl early ↦ simp (found, aware, waiting, early) c
        | inr late ↦
            simp (found, aware, waiting, late)
              (Came-enter k id s (moved u ready) e c (
                moved_on k id s u (moved u ready) e c found
                  (due now given (is_scheduled-lem u.status waiting) late)))
      ]
    ]
  ]
]

pub Came-cancel :
    {T : DateTime → Type 0} (k id : String) (s : ExecutionSchedule) (e : SchedulingEngine)
    → Came T k s e
    → Came T k s (cancel id e).1
unfolding cancel get
Came-cancel k id s e c = elim (Option-cases (Dict.get e.schedules id)) [
  | inl unknown ↦ simp unknown c
  | inr (u, found) ↦ elim (Bool-cases (is_closed u.status)) [
    | inl closed ↦ simp (found, closed) c
    | inr open_still ↦
        simp (found, open_still)
          (Came-enter k id s (moved u cancelled) e c
            (moved_on k id s u (moved u cancelled) e c found (dropped open_still)))
  ]
]

pub Came-complete :
    {T : DateTime → Type 0} (k id : String) (s : ExecutionSchedule) (e : SchedulingEngine)
    → Came T k s e
    → Came T k s (complete id e).1
unfolding complete get
Came-complete k id s e c = elim (Option-cases (Dict.get e.schedules id)) [
  | inl unknown ↦ simp unknown c
  | inr (u, found) ↦ elim (Bool-cases (is_ready u.status)) [
    | inr other ↦ simp (found, other) c
    | inl due_now ↦
        simp (found, due_now)
          (Came-enter k id s (moved u completed) e c (
            moved_on k id s u (moved u completed) e c found (done (is_ready-lem u.status due_now))))
  ]
]

pub Came-known_or_enter :
    {T : DateTime → Type 0} (k id : String) (s new : ExecutionSchedule) (e : SchedulingEngine)
    → Came T k s e
    → Came T k s (known_or_enter id new (Dict.get e.schedules id) e).1
Came-known_or_enter k id s new e c = elim (Option-cases (Dict.get e.schedules id)) [
  | inr (u, found) ↦ simp found c
  | inl unknown ↦ simp unknown (
      Came-enter k id s new e c
        λ same. absurd (no_value (sym unknown ∙ ap (Dict.get e.schedules) same ∙ c.stands)))
]

pub other_engines :
    {T : DateTime → Type 0} (k : String) (s : ExecutionSchedule) (e e' : SchedulingEngine)
    → e'.schedules ≡ e.schedules
    → Came T k s e
    → Came T k s e'
other_engines k s e e' same c = record {
  now = c.now;
  stands = ap (λ d. Dict.get d k) same ∙ c.stands;
  progress = c.progress;
}

module _ (strftime : DateTime → String) where
  pub Came-schedule :
      {T : DateTime → Type 0} (k : String) (s : ExecutionSchedule) (p : MultiActionExecutionPlan)
      (at created_at : DateTime) (metadata : Mapping) (e : SchedulingEngine)
      → Came T k s e
      → Came T k s (schedule strftime p at created_at metadata e).1
  Came-schedule {T = T} k s p at created_at metadata e c =
      schedule-keeps (Came T k s) (other_engines k s)
        (λ id new fresh d x. Came-known_or_enter k id s new d x) strftime p at created_at metadata e
        c
