-- ===== src/Schedule/Renewed.antt =====
-- What stands under an id behind `clear`: nothing, or what has come from a schedule entered anew.
use yoma.Prelude.{
  String, ◌≡◌, inl, inr, refl, false, none, some, ◌==◌, eq_iff, Bool-cases, Option-cases, ap, sym,
  ◌∙◌, if◌then◌else◌,
}
use yoma.Result.{Result-cases}
use yoma.Dict
use yoma.Value.{Mapping, DateTime, earlier}
use yoma.MultiAction.Model.{MultiActionExecutionPlan}
use yoma.Schedule.Model.{
  scheduled, ready, cancelled, completed, is_scheduled, is_ready, is_closed, ExecutionSchedule,
  schedule_post_init,
}
use yoma.Schedule.Engine.{
  SchedulingEngine, enter, known_or_enter, schedule, get, moved, make_ready, cancel, complete,
  clear,
}
use yoma.Schedule.Keeps.{schedule-keeps}
use yoma.Schedule.Steps.{Came, stays, no_value, post_init_same}
use yoma.Schedule.Progress.{
  Came-make_ready, Came-cancel, Came-complete, Came-known_or_enter, other_engines,
}

pub data Renewed (T : DateTime → Type 0) (k : String) (e : SchedulingEngine) : Type 0 where
  nothing : Dict.get e.schedules k ≡ none → Renewed T k e
  newly : (s : ExecutionSchedule) → s.status ≡ scheduled → Came T k s e → Renewed T k e

-- An entry under another id.
put_elsewhere :
    (k id : String) (t : ExecutionSchedule) (e : SchedulingEngine)
    → (id == k) ≡ false
    → Dict.get e.schedules k ≡ none
    → Dict.get (Dict.put e.schedules id t) k ≡ none
put_elsewhere k id t e other h =
    Dict.get-put e.schedules id t k
    ∙ ap (λ b. if b then some t else Dict.get e.schedules k) other
    ∙ h

elsewhere :
    (k id : String) (u : ExecutionSchedule) (e : SchedulingEngine)
    → Dict.get e.schedules k ≡ none
    → Dict.get e.schedules id ≡ some u
    → (id == k) ≡ false
elsewhere k id u e h found = elim (Bool-cases (id == k)) [
  | inr other ↦ other
  | inl same ↦
      absurd (no_value (sym h ∙ ap (Dict.get e.schedules) (sym ((eq_iff id k).0 same)) ∙ found))
]

enter_elsewhere :
    (k id : String) (t : ExecutionSchedule) (e : SchedulingEngine)
    → (id == k) ≡ false
    → Dict.get e.schedules k ≡ none
    → Dict.get (enter id t e).1.schedules k ≡ none
unfolding enter
enter_elsewhere k id t e other h = elim (Result-cases (schedule_post_init t)) [
  | inl (x, refused) ↦ rw refused h
  | inr (t', accepted) ↦ rw accepted (put_elsewhere k id t' e other h)
]

module _ {T : DateTime → Type 0} (k : String) where
  Renewed-enter :
      (id : String) (t : ExecutionSchedule)
      → t.status ≡ scheduled
      → (e : SchedulingEngine) → Dict.get e.schedules k ≡ none
      → Renewed T k (enter id t e).1
  unfolding enter
  Renewed-enter id t fresh e h = elim (Bool-cases (id == k)) [
    | inr other ↦ nothing (enter_elsewhere k id t e other h)
    | inl same ↦ elim (Result-cases (schedule_post_init t)) [
      | inl (x, refused) ↦ rw refused (nothing h)
      | inr (t', accepted) ↦ rw accepted (
          newly t'
            (ap (λ (s : ExecutionSchedule). s.status) (sym (post_init_same t accepted)) ∙ fresh)
            (record {
              now = t';
              stands =
                  Dict.get-put e.schedules id t' k
                  ∙ ap (λ b. if b then some t' else Dict.get e.schedules k) same;
              progress = stays;
            }))
    ]
  ]

  Renewed-known_or_enter :
      (id : String) (new : ExecutionSchedule)
      → new.status ≡ scheduled
      → (e : SchedulingEngine) → Renewed T k e
      → Renewed T k (known_or_enter id new (Dict.get e.schedules id) e).1
  Renewed-known_or_enter id new fresh e (newly s entered c) =
      newly s entered (Came-known_or_enter k id s new e c)
  Renewed-known_or_enter id new fresh e (nothing h) =
      elim (Option-cases (Dict.get e.schedules id)) [
        | inr (u, found) ↦ simp found (nothing h)
        | inl unknown ↦ simp unknown (Renewed-enter id new fresh e h)
      ]

  Renewed-other_engines :
      (e e' : SchedulingEngine) → e'.schedules ≡ e.schedules → Renewed T k e → Renewed T k e'
  Renewed-other_engines e e' same (nothing h) = nothing (ap (λ d. Dict.get d k) same ∙ h)
  Renewed-other_engines e e' same (newly s entered c) =
      newly s entered (other_engines k s e e' same c)

  pub Renewed-schedule :
      (strftime : DateTime → String) (p : MultiActionExecutionPlan) (at created_at : DateTime)
      (metadata : Mapping) (e : SchedulingEngine)
      → Renewed T k e
      → Renewed T k (schedule strftime p at created_at metadata e).1
  Renewed-schedule strftime p at created_at metadata e r =
      schedule-keeps (Renewed T k) Renewed-other_engines Renewed-known_or_enter strftime p at
        created_at metadata e r

  pub Renewed-make_ready :
      (id : String) (now : DateTime) (e : SchedulingEngine)
      → T now
      → Renewed T k e
      → Renewed T k (make_ready id now e).1
  unfolding make_ready get
  Renewed-make_ready id now e given (newly s entered c) =
      newly s entered (Came-make_ready k id now s e given c)
  Renewed-make_ready id now e given (nothing h) = elim (Option-cases (Dict.get e.schedules id)) [
    | inl unknown ↦ simp unknown (nothing h)
    | inr (u, found) ↦ elim (Bool-cases now.aware) [
      | inr naive ↦ simp (found, naive) (nothing h)
      | inl aware ↦ elim (Bool-cases (is_scheduled u.status)) [
        | inr other ↦ simp (found, aware, other) (nothing h)
        | inl waiting ↦ elim (Bool-cases (earlier now u.scheduled_at)) [
          | inl early ↦ simp (found, aware, waiting, early) (nothing h)
          | inr late ↦
              simp (found, aware, waiting, late)
                (nothing (enter_elsewhere k id (moved u ready) e (elsewhere k id u e h found) h))
        ]
      ]
    ]
  ]

  pub Renewed-cancel :
      (id : String) (e : SchedulingEngine) → Renewed T k e → Renewed T k (cancel id e).1
  unfolding cancel get
  Renewed-cancel id e (newly s entered c) = newly s entered (Came-cancel k id s e c)
  Renewed-cancel id e (nothing h) = elim (Option-cases (Dict.get e.schedules id)) [
    | inl unknown ↦ simp unknown (nothing h)
    | inr (u, found) ↦ elim (Bool-cases (is_closed u.status)) [
      | inl closed ↦ simp (found, closed) (nothing h)
      | inr open_still ↦
          simp (found, open_still)
            (nothing (enter_elsewhere k id (moved u cancelled) e (elsewhere k id u e h found) h))
    ]
  ]

  pub Renewed-complete :
      (id : String) (e : SchedulingEngine) → Renewed T k e → Renewed T k (complete id e).1
  unfolding complete get
  Renewed-complete id e (newly s entered c) = newly s entered (Came-complete k id s e c)
  Renewed-complete id e (nothing h) = elim (Option-cases (Dict.get e.schedules id)) [
    | inl unknown ↦ simp unknown (nothing h)
    | inr (u, found) ↦ elim (Bool-cases (is_ready u.status)) [
      | inr other ↦ simp (found, other) (nothing h)
      | inl due_now ↦
          simp (found, due_now)
            (nothing (enter_elsewhere k id (moved u completed) e (elsewhere k id u e h found) h))
    ]
  ]

  -- Behind `clear` nothing stands under any id.
  pub Renewed-clear : (e : SchedulingEngine) → Renewed T k (clear e).1
  unfolding clear Dict.get
  Renewed-clear e = nothing refl
