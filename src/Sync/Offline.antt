-- ===== src/Sync/Offline.antt =====
-- `OfflineConnectivityManager`: the state of the connection, the queue of its sync manager, and the
-- local buffer.
use yoma.Prelude.{
  ℕ, suc, String, Bool, true, false, List, [], ◌∷◌, Option, none, some, is_blank, keep, length,
  if◌then◌else◌,
}
use yoma.Result.{ok, value_error, raise_if}
use yoma.Exec.{Exec, return, lift, modify, ◌>>=◌, ◌>>◌}
use yoma.Dict
use yoma.Dict.{Dict}
use yoma.Value.{Mapping}
use yoma.Sync.Model.{
  CloudSyncIdentity, CloudSyncState, pending, synced, failed, is_pending, is_synced, is_failed,
  CloudSyncRecord, record_post_init,
}
use yoma.Sync.Cloud.{Records, mark, pending_records, enter, prepare, acknowledge, fail_sync}

pub data ConnectivityState : Type 0 where
  online offline unknown : ConnectivityState

abbrev pub is_online : ConnectivityState → Bool
is_online online = true
is_online _ = false

pub record Manager : Type 0 where
  pub connection : ConnectivityState
  pub cloud : Records
  pub local : Records

abbrev pub in_cloud {ℓ} : {A : Type ℓ} → Exec Records A → Exec Manager A
in_cloud m s = let (r, d) = m s.cloud in (r, record s { cloud = d })

abbrev pub in_local {ℓ} : {A : Type ℓ} → Exec Records A → Exec Manager A
in_local m s = let (r, d) = m s.local in (r, record s { local = d })

unfoldable pub set_state : ConnectivityState → Exec Manager ConnectivityState
set_state c s = (ok c, record s { connection = c })

unfoldable pub queue : CloudSyncRecord → Exec Manager CloudSyncRecord
queue r = in_local λ d. enter r.sync_id r (Dict.get d r.sync_id) d

unfoldable pub queue_many : List CloudSyncRecord → Exec Manager (List CloudSyncRecord)
queue_many [] = return []
queue_many (r ∷ rs) = do q ← queue r; qs ← queue_many rs; return (q ∷ qs)

unfoldable pub mark_synced : String → Exec Manager CloudSyncRecord
mark_synced key = in_local (mark synced none key)

unfoldable pub mark_failed : String → String → Exec Manager CloudSyncRecord
mark_failed key reason = do
  lift (raise_if (is_blank reason) (value_error "reason must be a non-empty string"))
  in_local (mark failed (some reason) key)

-- A failed record, to be tried again.
abbrev pub reset : CloudSyncRecord → CloudSyncRecord
reset r = record r { state = pending; last_error = none }

-- The loop of `clear_failed` over the items as they stood, with the count so far.
unfoldable pub clear_from : ℕ → Dict CloudSyncRecord → Exec Records ℕ
clear_from count [] = return count
clear_from count ((key, r) ∷ rest) =
    if is_failed r.state
    then (do
      u ← lift (record_post_init (reset r))
      modify (λ d. Dict.put d key u)
      clear_from (suc count) rest)
    else clear_from count rest

unfoldable pub clear_failed : Exec Manager ℕ
clear_failed s = in_local (clear_from 0 s.local) s

pub record OfflineQueueStatus : Type 0 where
  pub connection : ConnectivityState
  pub pending_count : ℕ
  pub synced_count : ℕ
  pub failed_count : ℕ

-- `sum(1 for record in records if record.state == ...)`
abbrev pub count_of : (CloudSyncState → Bool) → List CloudSyncRecord → ℕ
count_of p rs = length (keep (λ (r : CloudSyncRecord). p r.state) rs)

unfoldable pub status : Manager → OfflineQueueStatus
status s = record {
  connection = s.connection;
  pending_count = count_of is_pending (Dict.values s.local);
  synced_count = count_of is_synced (Dict.values s.local);
  failed_count = count_of is_failed (Dict.values s.local);
}

pub record OfflineSyncResult : Type 0 where
  pub connection : ConnectivityState
  pub attempted : ℕ
  pub synced : ℕ
  pub remaining : ℕ
  pub failed : ℕ
  pub records : List CloudSyncRecord

unfoldable pub prepare_reconnect_sync : Manager → OfflineSyncResult
prepare_reconnect_sync s = record {
  connection = s.connection;
  attempted = if is_online s.connection then length (pending_records s.local) else 0;
  synced = 0;
  remaining = length (pending_records s.local);
  failed = 0;
  records = pending_records s.local;
}

-- A result of the sync manager has no attribute `record`, so the source's last steps never run.
unfoldable pub acknowledge_cloud_sync : String → Exec Manager CloudSyncRecord
acknowledge_cloud_sync key = in_cloud (acknowledge key) >> mark_synced key

unfoldable pub fail_cloud_sync : String → String → Exec Manager CloudSyncRecord
fail_cloud_sync key reason = in_cloud (fail_sync key reason) >> mark_failed key reason

module _ (sha256 : String → String) (fromisoformat : String → Bool) (replace_z : String → String)
    (identity : CloudSyncIdentity) where
  unfoldable pub prepare_cloud_sync :
      String → String → String → Option Mapping → Exec Manager CloudSyncRecord
  prepare_cloud_sync event_type event_id occurred_at values = do
    r ←
        in_cloud
          (prepare sha256 fromisoformat replace_z identity event_type event_id occurred_at values)
    queue r
