-- ===== src/Gateway/Once.antt =====
-- The gateway over every sequence of calls.
use yoma.Prelude.{
  String, Bool, ◌≡◌, ◌⊎◌, inl, inr, refl, true, false, Option, none, some, [], ◌∷◌, List, is_empty,
  is_some, concat, starts_with-append, arith, Bool-cases, ap, sym, ◌∙◌,
}
use yoma.Result.{Error, value_error, ok, err}
use yoma.Dict
use yoma.Dict.{Dict, AllEntries, AllEntries-put}
use yoma.Gateway.Model.{
  is_running, result_post_init_accepts, ExecutionRecord, Outcome, returned, returned_none,
  returned_other, raised, Executor, Gateway,
}
use yoma.Gateway.Execute.{
  Request, execution_id, rejection_id, rejection_record, rejection_result, register_executor,
  unregister_executor, refuse, execute, execute_approved,
}
use yoma.Gateway.Records.{IsRequest, status_of, final_record, Refused, Ran, execute_approved_cases}

pub data Op (W : Type 0) : Type 0 where
  register : String → Executor W → Op W
  unregister : String → Op W
  submit : Request → Bool → Op W

settled_status : (o : Outcome) → is_running (status_of o) ≡ false
settled_status (returned m) = refl
settled_status returned_none = refl
settled_status returned_other = refl
settled_status (raised message) = refl

lacks : (o : Option ExecutionRecord) → o ≡ none → is_some o ≡ true → ⊥
lacks none e h = cc
lacks (some r) e h = cc

module _ {W : Type 0} where
  abbrev pub new : W → Gateway W
  new world = record { executors = []; records = []; world = world }

  -- The state that a call leaves, whether it returns or raises.
  unfoldable pub perform : Gateway W → Op W → Gateway W
  perform g (register name f) = (register_executor name f g).1
  perform g (unregister name) = (unregister_executor name g).1
  perform g (submit q approved) = (execute q approved g).1

  unfoldable pub perform_all : Gateway W → List (Op W) → Gateway W
  perform_all g [] = g
  perform_all g (op ∷ ops) = perform_all (perform g op) ops

  -- A request without approval never reaches an executor: the world and the executors stay, and a
  -- well-formed one leaves a rejected record and nothing else.
  pub unapproved_refused :
      (g : Gateway W) (q : Request)
      → IsRequest q
      → execute q false g ≡ (
        ok (rejection_result q),
        record g { records = Dict.put g.records (rejection_id q.action_id) (rejection_record q) },
      )
  unfolding execute refuse
  unapproved_refused g q h = rw (
    h.has_id,
    h.has_type,
    result_post_init_accepts (rejection_result q)
        (starts_with-append "EXEC-" (concat q.action_id "-REJECTED")) h.has_id,
  )

  unapproved_cases :
      (g : Gateway W) (q : Request) → ((e : Error) × (execute q false g ≡ (err e, g))) ⊎ IsRequest q
  unfolding execute
  unapproved_cases g q = elim (Bool-cases (is_empty q.action_id)) [
    | inl no_id ↦ inl (value_error "action_id is required", rw no_id)
    | inr has_id ↦ elim (Bool-cases (is_empty q.action_type)) [
      | inl no_type ↦ inl (value_error "action_type is required", rw (has_id, no_type))
      | inr has_type ↦ inr (record { has_id = has_id; has_type = has_type })
    ]
  ]

  -- What a property of states needs, to hold after every call.
  pub record Kept {κ} (P : Gateway W → Type κ) : Type κ where
    pub executors : (g : Gateway W) (fs : Dict (Executor W)) → P g → P (record g { executors = fs })
    pub rejection :
        (g : Gateway W) (q : Request)
        → P g
        → P (record g {
          records = Dict.put g.records (rejection_id q.action_id) (rejection_record q);
        })
    pub run :
        (g : Gateway W) (q : Request) (o : Outcome) (world : W)
        → P g
        → P (record {
          executors = g.executors;
          records = Dict.put g.records (execution_id q.action_id) (final_record q o);
          world = world;
        })

  register_cases :
      (g : Gateway W) (name : String) (f : Executor W)
      → ((register_executor name f g).1 ≡ g)
        ⊎ ((register_executor name f g).1 ≡ record g { executors = Dict.put g.executors name f })
  unfolding register_executor
  register_cases g name f = elim (Bool-cases (is_empty name)) [
    | inl unnamed ↦ inl (rw unnamed)
    | inr named ↦ elim (Bool-cases (Dict.has g.executors name)) [
      | inl known ↦ inl (rw (named, known))
      | inr unknown ↦ inr (rw (named, unknown))
    ]
  ]

  module _ {κ} {P : Gateway W → Type κ} (kept : Kept P) where
    perform_keeps : (g : Gateway W) (op : Op W) → P g → P (perform g op)
    unfolding perform execute_approved
    perform_keeps g (register name f) h = elim (register_cases g name f) [
      | inl same ↦ rw (perform, same) h
      | inr added ↦ rw (perform, added) (kept.executors g _ h)
    ]
    perform_keeps g (unregister name) h = unfold unregister_executor in kept.executors g _ h
    perform_keeps g (submit q true) h = elim (execute_approved_cases g q) [
      | inl (e, refused) ↦ rw (perform, refused) h
      | inr r ↦ rw (perform, r.run) (kept.run g q _ _ h)
    ]
    perform_keeps g (submit q false) h = elim (unapproved_cases g q) [
      | inl (e, refused) ↦ rw (perform, refused) h
      | inr good ↦ rw (perform, unapproved_refused g q good) (kept.rejection g q h)
    ]

    pub perform_all_keeps : (g : Gateway W) (ops : List (Op W)) → P g → P (perform_all g ops)
    unfolding perform_all
    perform_all_keeps g [] h = h
    perform_all_keeps g (op ∷ ops) h = perform_all_keeps (perform g op) ops (perform_keeps g op h)

  -- A record, once there, never disappears.
  has-Kept : (k : String) → Kept (λ g. Dict.has g.records k ≡ true)
  has-Kept k = record {
    executors = λ g fs h. h;
    rejection = λ g q h. rw Dict.get-put (ground (arith, h));
    run = λ g q o world h. rw Dict.get-put (ground (arith, h));
  }

  -- After an action has been run, whatever calls follow, in any order, a further approved request for
  -- the same action is refused and changes nothing: its executor is not called again.
  pub executed_once :
      (g : Gateway W) (q again : Request) (ops : List (Op W))
      → Ran g q
      → again.action_id ≡ q.action_id
      → Refused (perform_all (execute_approved q g).1 ops) again
  executed_once g q again ops r same =
      let later : Gateway W = perform_all (execute_approved q g).1 ops in
      let kept : Dict.has later.records (execution_id q.action_id) ≡ true =
        perform_all_keeps (has-Kept (execution_id q.action_id)) _ ops
          (rw r.run (rw Dict.get-put_self)) in
      elim (execute_approved_cases later again) [
        | inl refused ↦ refused
        | inr second ↦ absurd (
            lacks (Dict.get later.records (execution_id q.action_id))
              (ap (λ a. Dict.get later.records (execution_id a)) (sym same) ∙ second.fresh) kept)
      ]

  -- Each record stands under its own id, and none is left in the state `running`.
  abbrev pub IsSettled : Gateway W → Type 0
  IsSettled g =
      AllEntries (λ k (r : ExecutionRecord). (r.execution_id ≡ k) × (is_running r.status ≡ false))
        g.records

  IsSettled-Kept : Kept IsSettled
  IsSettled-Kept = record {
    executors = λ g fs h. h;
    rejection = λ g q h. AllEntries-put _ g.records _ (rejection_record q) h (refl, refl);
    run =
        λ g q o world h. AllEntries-put _ g.records _ (final_record q o) h (refl, settled_status o);
  }

  -- From a new gateway, after every sequence of calls, every record stands under its own execution
  -- id and none is left running.
  pub perform_all-IsSettled :
      (world : W) (ops : List (Op W)) → IsSettled (perform_all (new world) ops)
  perform_all-IsSettled world ops = perform_all_keeps IsSettled-Kept (new world) ops tt

  -- A rejection is entered under the id of the action `<action_id>-REJECTED`, and replaces the record
  -- of a run of that action.
  pub rejection_overwrites :
      (g : Gateway W) (run q : Request)
      → Ran g run
      → IsRequest q
      → run.action_id ≡ concat q.action_id "-REJECTED"
      → Dict.get (execute q false (execute_approved run g).1).1.records (execution_id run.action_id)
        ≡ some (rejection_record q)
  rejection_overwrites g run q r h e =
      rw (unapproved_refused (execute_approved run g).1 q h, e, Dict.get-put_self)
