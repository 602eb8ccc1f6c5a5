-- ===== src/ApprovalQueue/Refines.antt =====
-- The queue, seen as a workflow for each id, over calls of `enqueue`, `approve`, `reject` and `modify`.
use yoma.Prelude.{
  String, ◌≡◌, refl, false, List, [], ◌∷◌, none, some, ◌==◌, ◌⊎◌, inl, inr, ap, sym, ◌∙◌, subst,
  Bool-cases, Option-cases, eq_iff,
}
use yoma.Result.{Error, value_error, Result, ok, err}
use yoma.Dict
use yoma.Plan.{ActionPlan}
use yoma.Approval.Model.{is_pending, ActionApprovalWorkflow, IsWorkflow}
use yoma.Approval.Lifecycle.{Decision, apply, settle, complaint, verdict, apply-eq-verdict}
use yoma.Approval.History.{after, decide_all}
use yoma.Schedule.Model.{ExecutionSchedule}
use yoma.ApprovalQueue.Model.{ApprovalQueueItem, IsItem}
use yoma.ApprovalQueue.Queue.{Queue, queue_item_id, enter, enqueue, decide_with, replaced, get}
use yoma.ApprovalQueue.Calls.{
  Op, enqueues, decides, decide, perform, perform_all, decisions_for, decide-with, replaced-IsItem,
  post_init-IsItem, replaced_self, decide_with-ends, enqueue-ends,
}

apply_ends :
    (w : ActionApprovalWorkflow) (d : Decision)
    → IsWorkflow w
    → ((e : Error) × (apply d w ≡ err e)) ⊎ (apply d w ≡ ok (settle w d))
apply_ends w d h = elim (Option-cases (complaint d)) [
  | inr (message, c) ↦ inl (_, apply-eq-verdict w d h ∙ ap (λ o. verdict o w d) c)
  | inl sound ↦ elim (Bool-cases (is_pending w.status)) [
    | inl waits ↦ inr (apply-eq-verdict w d h ∙ ap (λ o. verdict o w d) sound ∙ rw waits refl)
    | inr closed ↦ inl (
      value_error "only pending workflows can receive a new decision",
      apply-eq-verdict w d h ∙ ap (λ o. verdict o w d) sound ∙ rw closed refl,
    )
  ]
]

put_elsewhere :
    (q : Queue) (k : String) (j : ApprovalQueueItem) (id : String)
    → (k == id) ≡ false
    → Dict.get (Dict.put q k j) id ≡ Dict.get q id
put_elsewhere q k j id other = rw (Dict.get-put q k j id, other) refl

decide_elsewhere :
    (k id : String) (d : Decision) (q : Queue)
    → (k == id) ≡ false
    → Dict.get (decide k d q) id ≡ Dict.get q id
decide_elsewhere k id d q other =
    ap (λ r. Dict.get r id) (decide-with k d q) ∙ (elim (decide_with-ends k (apply d) q) [
      | inl same ↦ ap (λ r. Dict.get r id) same
      | inr (j, put) ↦ ap (λ r. Dict.get r id) put ∙ put_elsewhere q k j id other
    ])

module _ (id : String) where
  -- The call `enqueue` keeps what stands under an id.
  enqueue_keeps :
      (s : ExecutionSchedule) (plan : ActionPlan) (q : Queue) (i : ApprovalQueueItem)
      → Dict.get q id ≡ some i
      → Dict.get (enqueue s plan q).1 id ≡ some i
  enqueue_keeps s plan q i h = elim (enqueue-ends s plan q) [
    | inl same ↦ ap (λ r. Dict.get r id) same ∙ h
    | inr (new, j, put) ↦ elim (Bool-cases (queue_item_id s == id)) [
      | inl same ↦
          absurd (none_some (sym new ∙ ap (Dict.get q) ((eq_iff (queue_item_id s) id).0 same) ∙ h))
      | inr other ↦ ap (λ r. Dict.get r id) put ∙ put_elsewhere q (queue_item_id s) j id other ∙ h
    ]
  ]
    where
      none_some : {a : ApprovalQueueItem} → none ≡ some a → ⊥
      none_some e = cc

  decide_refused :
      (f : ActionApprovalWorkflow → Result ActionApprovalWorkflow) (q : Queue)
      (i : ApprovalQueueItem) (e : Error)
      → Dict.get q id ≡ some i
      → f i.workflow ≡ err e
      → (decide_with id f q).1 ≡ q
  unfolding decide_with get
  decide_refused f q i e stands stops = simp (stands, stops)

  decide_accepted :
      (f : ActionApprovalWorkflow → Result ActionApprovalWorkflow) (q : Queue)
      (i : ApprovalQueueItem) (w : ActionApprovalWorkflow)
      → Dict.get q id ≡ some i
      → f i.workflow ≡ ok w
      → IsItem (replaced i w)
      → (decide_with id f q).1 ≡ Dict.put q id (replaced i w)
  unfolding decide_with enter get
  decide_accepted f q i w stands decided h =
      simp (stands, decided, post_init-IsItem (replaced i w) h)

  -- A decision on the id is one decision on the item's workflow.
  decide_here :
      (d : Decision) (q : Queue) (i : ApprovalQueueItem)
      → IsItem i
      → Dict.get q id ≡ some i
      → IsItem (replaced i (after i.workflow (apply d i.workflow)))
        × (Dict.get (decide id d q) id ≡ some (replaced i (after i.workflow (apply d i.workflow))))
  decide_here d q i h stands = elim (apply_ends i.workflow d h.workflow) [
    | inl (e, stops) ↦
        let same : replaced i (after i.workflow (apply d i.workflow)) ≡ i =
          ap (λ r. replaced i (after i.workflow r)) stops ∙ replaced_self i h in
        (
          subst IsItem (sym same) h,
          ap (λ r. Dict.get r id) (decide-with id d q ∙ decide_refused (apply d) q i e stands stops)
              ∙ stands
              ∙ ap some (sym same),
        )
    | inr settles ↦
        let new : replaced i (after i.workflow (apply d i.workflow))
            ≡ replaced i (settle i.workflow d) =
          ap (λ r. replaced i (after i.workflow r)) settles in
        let is_item = replaced-IsItem i d h in
        (
          subst IsItem (sym new) is_item,
          ap (λ r. Dict.get r id)
                (decide-with id d q
                  ∙ decide_accepted (apply d) q i (settle i.workflow d) stands settles is_item)
              ∙ Dict.get-put_self q id (replaced i (settle i.workflow d))
              ∙ ap some (sym new),
        )
  ]

  -- Let an item that went through its constructor stand under an id. The queue does to it what the
  -- approval engine does to its workflow alone: after any sequence of calls of `enqueue`, `approve`,
  -- `reject` and `modify`, the item there has the workflow after the decisions on the id, in their
  -- order, its status, and the rest as before.
  pub queue_refines_workflows :
      (q : Queue) (i : ApprovalQueueItem) (ops : List Op)
      → IsItem i
      → Dict.get q id ≡ some i
      → Dict.get (perform_all q ops) id
        ≡ some (replaced i (decide_all i.workflow (decisions_for id ops)))
  unfolding perform_all perform decide_all
  queue_refines_workflows q i [] h stands = stands ∙ ap some (sym (replaced_self i h))
  queue_refines_workflows q i (enqueues s plan ∷ ops) h stands =
      queue_refines_workflows (enqueue s plan q).1 i ops h (enqueue_keeps s plan q i stands)
  queue_refines_workflows q i (decides k d ∷ ops) h stands = elim (Bool-cases (k == id)) [
    | inl same ↦
        let (is_item, put) = decide_here d q i h stands in
        let k_is_id = (eq_iff k id).0 same in
        rw same (
          queue_refines_workflows (decide k d q)
            (replaced i (after i.workflow (apply d i.workflow))) ops is_item
            (ap (λ x. Dict.get (decide x d q) id) k_is_id ∙ put))
    | inr other ↦
        rw other (
          queue_refines_workflows (decide k d q) i ops h (decide_elsewhere k id d q other ∙ stands))
  ]
