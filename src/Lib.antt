-- ===== src/Lib.antt =====
-- A verification library of YOMA's governed execution: the way from an action plan, through human
-- approval and policy, to the gateway that executes, the ordering, scheduling and rollback of
-- dependent actions, and the licenses and subscriptions of deployments.
--
-- The program's parts, all in src/yoma/office, and the modules of each:
--   action_planning.py              Plan        the plan that a human decides on
--   action_approval.py              Approval    workflows, and approve, reject, modify
--   policy_constraints.py           Policy      constraints, and evaluate
--   action_execution.py             Gateway     executors, records, and execute
--   approval_execution_bridge.py    Bridge      approved workflows forwarded to the gateway
--   execution_policy.py             Bridge      the enforcer: policy first, then the bridge
--   multi_action_execution.py       MultiAction plans of several actions
--   decision_dependencies.py, control_orchestration.py
--                                   Orchestration   a plan as steps with dependencies
--   dependency_aware_execution.py   Ordering    levels of actions, and order, analyze
--   transaction_rollback.py         Rollback    transactions, and plans that compensate
--   execution_scheduling.py         Schedule    schedules of ordered plans
--   human_approval_queue.py         ApprovalQueue   scheduled plans that wait for a decision
--   licensing: license_model.py, license_validation.py, entitlements.py, enforcement.py,
--   trial_subscription.py, activation.py, persistence.py, trial_persistence.py
--                                   Licensing   licenses, subscriptions, activation, what is kept
--   cloud_sync.py, offline_connectivity.py, distributed_organization_identity.py
--                                   Sync        records to synchronize, and their local buffer
--   organization_events.py, organization_event_bus.py
--                                   Events      changes, and the handlers called for them
--   security/organization_control_plane.py
--                                   ControlPlane  users, authority, enrollment, the line of managers
--   distributed_node_security.py    NodeTrust   whether a node of a deployment is trusted
-- A plan gets a workflow by `create`, a decision settles it, the enforcer evaluates the constraints
-- on the plan and hands workflow and plan to the bridge, and the bridge calls the gateway. The
-- engines of Orchestration, MultiAction, Ordering, Rollback and Schedule stand beside them and
-- execute nothing: the scheduling engine orders a plan, builds its transaction, and keeps a schedule
-- of it.
--
-- How the state corresponds. A data class is a record with the source's fields, its
-- `__post_init__` a function that returns the value or the exception (`..._post_init`). Frozen
-- values are passed on; a method that changes an object is an `Exec` (Exec.antt): a function of the
-- state that returns the result beside the state, so that what was written before an exception
-- stays. A dictionary is a list of entries in the order of their insertion (Dict.antt). `sorted` is
-- a stable insertion sort (Sorted.antt). Sets of names are lists, without repetition where the
-- source counts or iterates them.
--
-- Conventions. Statuses are enumerations, so a test for an unknown status never fires; a test of
-- `isinstance` that the types decide is left out. A time is a count of microseconds with a flag for
-- its time zone (Value.antt). The weight of evidence is counted in thousandths. The message of an
-- exception is the source's text.
--
-- Licensing. A time argument that is left out is the clock's; the model takes it as given. What
-- `save` wrote last stands in the manager's field `saved`; an error of the file system is left out.
--
-- Sync. The manager is the queue of cloud_sync.py and the local buffer of offline_connectivity.py in
-- one record. A hash and the parsing of a time are any functions.
--
-- Events. A handler is named by what equality tells of it, and acts on the bus and a world of any
-- type, so it may subscribe and unsubscribe handlers while an event is published.
--
-- ControlPlane. `chain` has one round for each user and one more, which is enough, since every round
-- visits a stored user for the first time. `secrets`, `sha256` and the clock are arguments.
--
-- NodeTrust. A call reads the clock at most twice, and what it gives is an argument.
--
-- Parameters. An executor is code outside of the program: any function of the action's id, type
-- and parameters that acts on a world of any type and returns a mapping, nothing, another value, or
-- raises. What it raises is an `Exception`: of any other `BaseException`, which `execute` would pass
-- on with the record still running, there is no model. It has no reference to the gateway that calls
-- it. The text of a time in a schedule's id, `strftime`, is any function of times.
--
-- Fuel. The loops of Ordering/Levels.antt have one round of fuel for each name that remains. Each
-- round that does not stop places a name, so this is enough; `none` never comes back.
--
-- Not modelled: the engine that copies a decision into a plan, the intelligence layer with its
-- floating-point scores, storage, user interface, network and installers.
pub mod Prelude
pub mod Result
pub mod Exec
pub mod Dict
pub mod Value
pub mod Sorted
pub mod Plan
pub mod Approval
pub mod Policy
pub mod Gateway
pub mod Bridge
pub mod Orchestration
pub mod ApprovalQueue
pub mod Ordering
pub mod Rollback
pub mod Schedule
pub mod Sync
pub mod Events
pub mod ControlPlane
pub mod Licensing
pub mod MultiAction
pub mod Tests
pub mod NodeTrust
