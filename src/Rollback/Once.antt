-- ===== src/Rollback/Once.antt =====
-- Repeated calls of `build` for one plan.
use yoma.Prelude.{
  String, ◌≡◌, true, false, List, Option, none, some, arith, Bool-cases, Option-cases, inl, inr, ap,
  sym, ◌∙◌,
}
use yoma.Result.{Error, ok, err, value_error, Result-cases}
use yoma.Dict
use yoma.Dict.{Dict}
use yoma.MultiAction.Model.{MultiActionExecutionPlan}
use yoma.Ordering.Model.{ExecutionOrder}
use yoma.Rollback.Model.{
  TransactionIntelligence, boundary_post_init, plan_post_init, transaction_post_init,
}
use yoma.Rollback.Engine.{transaction_id, made_transaction, ordered_ids, is_foreign, build}

made_transaction_lem :
    (plan_id : String) (ids : List String) (t : TransactionIntelligence)
    → made_transaction plan_id ids ≡ ok t
    → t.transaction_id ≡ transaction_id plan_id
unfolding made_transaction boundary_post_init plan_post_init transaction_post_init
made_transaction_lem plan_id ids t h = ground arith

err_ok : {x : Error} {t : TransactionIntelligence} → err x ≡ ok t → ⊥
err_ok h = cc

ok_inj : {a b : TransactionIntelligence} → ok a ≡ ok b → a ≡ b
ok_inj h = cc

module _ (p : MultiActionExecutionPlan) where
  -- The entry of the plan's transaction.
  abbrev entry : Dict TransactionIntelligence → Option TransactionIntelligence
  entry d = Dict.get d (transaction_id p.execution_plan_id)

  build_known :
      (o : Option ExecutionOrder) (d : Dict TransactionIntelligence) (t : TransactionIntelligence)
      → is_foreign p o ≡ false
      → entry d ≡ some t
      → build p o d ≡ (ok t, d)
  unfolding build
  build_known o d t own known = simp (own, known)

  build_enters :
      (o : Option ExecutionOrder) (d : Dict TransactionIntelligence) (t : TransactionIntelligence)
      → (build p o d).0 ≡ ok t
      → entry (build p o d).1 ≡ some t
  unfolding build
  build_enters o d t h = elim (Bool-cases (is_foreign p o)) [
    | inl foreign ↦ absurd (err_ok (sym (ap (λ r. r.0) (stops foreign)) ∙ h))
    | inr own ↦ elim (Option-cases (entry d)) [
      | inr (old, known) ↦
          ap (λ r. entry r.1) (build_known o d old own known)
          ∙ known
          ∙ ap some (ok_inj (sym (ap (λ r. r.0) (build_known o d old own known)) ∙ h))
      | inl unknown ↦ elim (Result-cases (made_transaction p.execution_plan_id (ordered_ids p o))) [
        | inl (x, fails) ↦ absurd (err_ok (sym (ap (λ r. r.0) (fails_lem own unknown fails)) ∙ h))
        | inr (new, made) ↦
            ap (λ r. entry r.1) (enters own unknown made)
            ∙ ap (λ k. Dict.get (Dict.put d new.transaction_id new) k)
                (sym (made_transaction_lem p.execution_plan_id (ordered_ids p o) new made))
            ∙ Dict.get-put_self d new.transaction_id new
            ∙ ap some (ok_inj (sym (ap (λ r. r.0) (enters own unknown made)) ∙ h))
      ]
    ]
  ]
    where
      stops :
          is_foreign p o ≡ true
          → build p o d ≡ (err (value_error "execution order must belong to the execution plan"), d)
      stops foreign = simp foreign

      fails_lem :
          {x : Error}
          → is_foreign p o ≡ false
          → entry d ≡ none
          → made_transaction p.execution_plan_id (ordered_ids p o) ≡ err x
          → build p o d ≡ (err x, d)
      fails_lem own unknown fails = simp (own, unknown, fails)

      enters :
          {new : TransactionIntelligence}
          → is_foreign p o ≡ false
          → entry d ≡ none
          → made_transaction p.execution_plan_id (ordered_ids p o) ≡ ok new
          → build p o d ≡ (ok new, Dict.put d new.transaction_id new)
      enters own unknown made = simp (own, unknown, made)

  -- Once `build` has returned a transaction of a plan, a further call for the plan returns the same
  -- and changes nothing, also where it is given another order of the plan.
  pub build_once :
      (o again : Option ExecutionOrder) (d : Dict TransactionIntelligence)
      (t : TransactionIntelligence)
      → (build p o d).0 ≡ ok t
      → is_foreign p again ≡ false
      → build p again (build p o d).1 ≡ (ok t, (build p o d).1)
  build_once o again d t h own = build_known again (build p o d).1 t own (build_enters o d t h)
