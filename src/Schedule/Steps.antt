-- ===== src/Schedule/Steps.antt =====
-- The moves of a schedule, and what one entry into the dictionary does to a schedule.
use yoma.Prelude.{
  String, ◌≡◌, inl, inr, false, none, some, ◌==◌, eq_iff, arith, Bool-cases, ap, sym, ◌∙◌, subst,
  if◌then◌else◌,
}
use yoma.Result.{ok, Result-cases}
use yoma.Dict
use yoma.Dict.{Dict}
use yoma.Value.{DateTime, earlier}
use yoma.Schedule.Model.{
  scheduled, ready, cancelled, completed, is_closed, ExecutionSchedule, schedule_post_init,
}
use yoma.Schedule.Engine.{SchedulingEngine, enter, moved}

-- The moves of a schedule, given times of `T`: from scheduled to ready at a time that is due, from
-- either to cancelled, from ready to completed.
pub data Step (T : DateTime → Type 0) (s : ExecutionSchedule) : ExecutionSchedule → Type 0 where
  due :
      (now : DateTime)
      → T now
      → s.status ≡ scheduled
      → earlier now s.scheduled_at ≡ false
      → Step T s (moved s ready)
  dropped : is_closed s.status ≡ false → Step T s (moved s cancelled)
  done : s.status ≡ ready → Step T s (moved s completed)

pub data Progress (T : DateTime → Type 0) (s : ExecutionSchedule) : ExecutionSchedule → Type 0 where
  stays : Progress T s s
  moves : {t u : ExecutionSchedule} → Progress T s t → Step T t u → Progress T s u

-- The schedule that stands under `k` has come from `s`.
pub record Came (T : DateTime → Type 0) (k : String) (s : ExecutionSchedule) (e : SchedulingEngine)
    : Type 0 where
  pub now : ExecutionSchedule
  pub stands : Dict.get e.schedules k ≡ some now
  pub progress : Progress T s now

pub post_init_same :
    (s : ExecutionSchedule) {t : ExecutionSchedule} → schedule_post_init s ≡ ok t → s ≡ t
unfolding schedule_post_init
post_init_same s h = ground arith

some_inj : {a b : ExecutionSchedule} → some a ≡ some b → a ≡ b
some_inj h = cc

pub no_value : {a : ExecutionSchedule} → none ≡ some a → ⊥
no_value h = cc

Came-put :
    {T : DateTime → Type 0} (k id : String) (s t : ExecutionSchedule) (e : SchedulingEngine)
    (c : Came T k s e)
    → (id ≡ k → Progress T s t)
    → Came T k s (record e { schedules = Dict.put e.schedules id t })
Came-put k id s t e c h = elim (Bool-cases (id == k)) [
  | inl same ↦ record {
    now = t;
    stands =
        Dict.get-put e.schedules id t k
        ∙ ap (λ b. if b then some t else Dict.get e.schedules k) same;
    progress = h ((eq_iff id k).0 same);
  }
  | inr other ↦ record {
    now = c.now;
    stands =
        Dict.get-put e.schedules id t k
        ∙ ap (λ b. if b then some t else Dict.get e.schedules k) other
        ∙ c.stands;
    progress = c.progress;
  }
]

pub Came-enter :
    {T : DateTime → Type 0} (k id : String) (s t : ExecutionSchedule) (e : SchedulingEngine)
    (c : Came T k s e)
    → (id ≡ k → Progress T s t)
    → Came T k s (enter id t e).1
unfolding enter
Came-enter {T = T} k id s t e c h = elim (Result-cases (schedule_post_init t)) [
  | inl (x, refused) ↦ rw refused c
  | inr (t', accepted) ↦ rw accepted (
      subst (λ u. Came T k s (record e { schedules = Dict.put e.schedules id u }))
        (post_init_same t accepted) (Came-put k id s t e c h))
]

-- The schedule that a call finds under its id is the one that has come from `s`, if the ids agree.
pub moved_on :
    {T : DateTime → Type 0} (k id : String) (s u v : ExecutionSchedule) (e : SchedulingEngine)
    (c : Came T k s e)
    → Dict.get e.schedules id ≡ some u
    → Step T u v
    → id ≡ k
    → Progress T s v
moved_on {T = T} k id s u v e c found step same =
    let here : c.now ≡ u = some_inj (sym c.stands ∙ ap (Dict.get e.schedules) (sym same) ∙ found) in
    moves (subst (Progress T s) here c.progress) step
