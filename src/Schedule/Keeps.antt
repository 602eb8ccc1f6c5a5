-- ===== src/Schedule/Keeps.antt =====
-- What `schedule` leaves as it is: a property of the schedules that its entry keeps.
use yoma.Prelude.{String, ◌≡◌, refl, not, some, ◌||◌, is_nil}
use yoma.Result.{Result, ok, err, value_error, raise_if, raise_unless}
use yoma.Exec.{Exec, proceed}
use yoma.Dict
use yoma.Value.{Mapping, DateTime, earlier}
use yoma.MultiAction.Model.{MultiActionExecutionPlan}
use yoma.Ordering.Engine.{order}
use yoma.Ordering.Model.{ExecutionOrder}
use yoma.Rollback.Engine.{build}
use yoma.Schedule.Model.{scheduled, ExecutionSchedule}
use yoma.Schedule.Engine.{SchedulingEngine, known_or_enter, schedule_id, schedule_of, schedule}

-- `Q` depends on the schedules only, and entering a new schedule keeps it.
module _ (Q : SchedulingEngine → Type 0)
    (others : (e e' : SchedulingEngine) → e'.schedules ≡ e.schedules → Q e → Q e')
    (enters : (id : String) (new : ExecutionSchedule)
      → new.status ≡ scheduled
      → (e : SchedulingEngine) → Q e
      → Q (known_or_enter id new (Dict.get e.schedules id) e).1) where
  -- A check, or a call that keeps `Q`, before a part that does.
  proceed-keeps {ℓ κ} :
      {A : Type ℓ} {B : Type κ} (r : Result A) (f : A → Exec SchedulingEngine B)
      (e : SchedulingEngine)
      → Q e
      → ((a : A) → Q (f a e).1)
      → Q (proceed r f e).1
  proceed-keeps (ok a) f e c h = h a
  proceed-keeps (err x) f e c h = c

  pub schedule-keeps :
      (strftime : DateTime → String) (p : MultiActionExecutionPlan) (at created_at : DateTime)
      (metadata : Mapping) (e : SchedulingEngine)
      → Q e
      → Q (schedule strftime p at created_at metadata e).1
  unfolding schedule
  schedule-keeps strftime p at created_at metadata e c =
      proceed-keeps
        (raise_if (not at.aware || not created_at.aware)
          (value_error "scheduled_at and created_at must be timezone-aware"))
        _ e c
        λ _.
          proceed-keeps
            (raise_if (earlier at created_at)
              (value_error "scheduled_at cannot be earlier than created_at"))
            _ e c
            λ _.
              let ordered : Result ExecutionOrder × SchedulingEngine = (
                (order p e.dependency_engine).0,
                record e { dependency_engine = (order p e.dependency_engine).1 },
              ) in
              proceed-keeps ordered.0 _ ordered.1 (others e ordered.1 refl c) λ o.
                proceed-keeps
                  (raise_unless (is_nil o.blocked_action_ids)
                    (value_error "cannot schedule a plan with blocked actions"))
                  _ ordered.1 (others e ordered.1 refl c)
                  λ _.
                    proceed-keeps
                      (raise_unless (is_nil o.missing_dependency_ids)
                        (value_error "cannot schedule a plan with missing dependencies"))
                      _ ordered.1 (others e ordered.1 refl c)
                      λ _.
                        let built : SchedulingEngine = record ordered.1 {
                          transactions = (build p (some o) e.transactions).1;
                        } in
                        proceed-keeps (build p (some o) e.transactions).0 _ built
                          (others e built refl c)
                          λ t.
                            let entry =
                              known_or_enter (schedule_id strftime p at)
                                (schedule_of (schedule_id strftime p at) p at created_at metadata o
                                  t)
                                (Dict.get e.schedules (schedule_id strftime p at)) built in
                            proceed-keeps entry.0 _ entry.1
                              (enters (schedule_id strftime p at)
                                (schedule_of (schedule_id strftime p at) p at created_at metadata o
                                  t)
                                refl built (others e built refl c))
                              λ x.
                                enters (schedule_id strftime p at)
                                  (schedule_of (schedule_id strftime p at) p at created_at metadata
                                    o t)
                                  refl built (others e built refl c)
