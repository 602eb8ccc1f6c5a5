-- ===== src/Tests/Sync.antt =====
-- Examples for the synchronization of records.
use yoma.Prelude.{is_blank, ℕ, String, ◌≡◌, refl, true, [], ◌∷◌, none, some, List, concat, Bool}
use yoma.Result.{ok}
use yoma.Dict
use yoma.Sync.Model.{CloudSyncIdentity, CloudSyncState, CloudSyncRecord}
use yoma.Sync.Offline.{ConnectivityState, Manager, reset, clear_failed}
use yoma.Sync.Mirror.{Op, perform_all}
use yoma.Sync.Agree.{buffer_mirrors_queue}
use yoma.Sync.Clearing.{clear_failed_diverges}

abbrev identity : CloudSyncIdentity
identity = record { organization_id = "org"; deployment_id = "dep"; node_id = "n1" }

-- A hash that keeps its text behind a mark, a parser that accepts one text, and no replacement.
abbrev hash : String → String
hash s = concat "h" s

abbrev accepts : String → Bool
accepts s = true

abbrev as_it_is : String → String
as_it_is s = s

abbrev lost : CloudSyncRecord
lost = record {
  sync_id = "horg:dep:n1:e1";
  identity = identity;
  payload = record { event_type = "login"; event_id = "e1"; occurred_at = "noon"; content = [] };
  state = CloudSyncState.failed;
  attempts = 1;
  last_error = some "timeout";
}

abbrev manager : Manager
manager = record {
  connection = ConnectivityState.online;
  cloud = ("horg:dep:n1:e1", lost) ∷ [];
  local = ("horg:dep:n1:e1", lost) ∷ [];
}

abbrev calls : List Op
calls =
    Op.prepares "login" "e2" "noon" none
    ∷ Op.fails "horg:dep:n1:e2" "timeout"
    ∷ Op.connects ConnectivityState.offline
    ∷ Op.acknowledges "horg:dep:n1:e1"
    ∷ Op.acknowledges "unknown"
    ∷ []

buffer_mirrors_queue_example :
    (perform_all hash accepts as_it_is identity manager calls).cloud
    ≡ (perform_all hash accepts as_it_is identity manager calls).local
buffer_mirrors_queue_example =
    buffer_mirrors_queue hash accepts as_it_is identity manager calls refl (refl, tt)

clear_failed_diverges_example :
    ((m : ℕ) × ((clear_failed manager).0 ≡ ok m))
    × (Dict.get (clear_failed manager).1.local "horg:dep:n1:e1" ≡ some (reset lost))
    × (Dict.get (clear_failed manager).1.cloud "horg:dep:n1:e1" ≡ some lost)
unfolding Dict.get is_blank
clear_failed_diverges_example =
    clear_failed_diverges manager "horg:dep:n1:e1" lost refl (refl, tt) refl refl refl
