-- ===== src/Approval/History.antt =====
-- Workflows over every sequence of decisions.
use yoma.Prelude.{
  String, ◌≡◌, inl, inr, refl, false, List, [], ◌∷◌, Option, none, some, is_empty, arith,
  Option-cases,
}
use yoma.Result.{Result, ok, err}
use yoma.Approval.Model.{pending, is_pending, ActionApprovalWorkflow, IsWorkflow}
use yoma.Approval.Lifecycle.{Decision, apply, entry_of, settle, complaint, apply-eq-verdict}

-- A caller that keeps the old workflow where a decision is refused: workflows are frozen.
abbrev pub after : ActionApprovalWorkflow → Result ActionApprovalWorkflow → ActionApprovalWorkflow
after w (ok w') = w'
after w (err e) = w

unfoldable pub decide_all : ActionApprovalWorkflow → List Decision → ActionApprovalWorkflow
decide_all w [] = w
decide_all w (d ∷ ds) = decide_all (after w (apply d w)) ds

-- The first decision that has no complaint.
abbrev pub first_sound : List Decision → Option Decision
first_sound [] = none
first_sound (d ∷ ds) = elim (complaint d) [ none ↦ some d | some message ↦ first_sound ds ]

abbrev pub settle_by : ActionApprovalWorkflow → Option Decision → ActionApprovalWorkflow
settle_by w none = w
settle_by w (some d) = settle w d

pub entry_decided :
    (w : ActionApprovalWorkflow) (d : Decision) → is_pending (entry_of w d).status ≡ false
entry_decided w (Decision.approval who at comment) = refl
entry_decided w (Decision.rejection who at comment) = refl
entry_decided w (Decision.modification who at changes comment) = refl

pub entry_plan : (w : ActionApprovalWorkflow) (d : Decision) → (entry_of w d).plan_id ≡ w.plan_id
entry_plan w (Decision.approval who at comment) = refl
entry_plan w (Decision.rejection who at comment) = refl
entry_plan w (Decision.modification who at changes comment) = refl

pub entry_reviewer :
    (w : ActionApprovalWorkflow) (d : Decision)
    → complaint d ≡ none
    → is_empty (entry_of w d).reviewer_id ≡ false
entry_reviewer w (Decision.approval who at comment) h = ground arith
entry_reviewer w (Decision.rejection who at comment) h = ground arith
entry_reviewer w (Decision.modification who at changes comment) h = ground arith

pub IsWorkflow-settle :
    (w : ActionApprovalWorkflow) (d : Decision) → IsWorkflow w → IsWorkflow (settle w d)
IsWorkflow-settle w d h = record {
  workflow_id = h.workflow_id;
  plan_id = h.plan_id;
  decision_id = h.decision_id;
  human = h.human;
}

pub after_decided :
    (w : ActionApprovalWorkflow) (d : Decision)
    → IsWorkflow w
    → is_pending w.status ≡ false
    → after w (apply d w) ≡ w
after_decided w d h decided = rw (apply-eq-verdict w d h) (ground (arith, decided))

pub apply_sound :
    (w : ActionApprovalWorkflow) (d : Decision)
    → IsWorkflow w
    → w.status ≡ pending
    → complaint d ≡ none
    → apply d w ≡ ok (settle w d)
apply_sound w d h p sound = rw (apply-eq-verdict w d h) (ground (arith, sound, p))

pub apply-complaint :
    (w : ActionApprovalWorkflow) (d : Decision) {message : String}
    → IsWorkflow w
    → complaint d ≡ some message
    → after w (apply d w) ≡ w
apply-complaint w d h e = rw (apply-eq-verdict w d h) (ground (arith, e))

-- A decided workflow is final: no sequence of decisions changes it.
pub decide_all_final :
    (w : ActionApprovalWorkflow) (ds : List Decision)
    → IsWorkflow w
    → is_pending w.status ≡ false
    → decide_all w ds ≡ w
unfolding decide_all
decide_all_final w [] h decided = refl
decide_all_final w (d ∷ ds) h decided =
    rw (after_decided w d h decided) (decide_all_final w ds h decided)

-- From a pending workflow, any sequence of decisions ends in the workflow settled by the first
-- decision that is well formed, and in the same workflow if there is none.
pub first_sound_wins :
    (w : ActionApprovalWorkflow) (ds : List Decision)
    → IsWorkflow w
    → w.status ≡ pending
    → decide_all w ds ≡ settle_by w (first_sound ds)
unfolding decide_all
first_sound_wins w [] h p = refl
first_sound_wins w (d ∷ ds) h p = elim (Option-cases (complaint d)) [
  | inl sound ↦
      rw (sound, first_sound, apply_sound w d h p sound)
        (decide_all_final (settle w d) ds (IsWorkflow-settle w d h) (entry_decided w d))
  | inr (message, e) ↦ rw (e, first_sound, apply-complaint w d h e) (first_sound_wins w ds h p)
]
