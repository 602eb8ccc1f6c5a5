-- ===== src/Sync/Cloud.antt =====
-- `CloudSyncQueue`, whose state is the dictionary of records, and `CloudSyncManager` over it.
-- `sha256` is the hash of a text as hexadecimal digits.
use yoma.Prelude.{
  suc, String, Bool, true, false, List, [], Option, none, some, is_blank, concat, keep, or_default,
  text_leb,
}
use yoma.Result.{Result, ok, err, value_error, key_error, raise_if}
use yoma.Result as Outcome
use yoma.Exec.{Exec, return, lift, gets, modify, ◌>>=◌, ◌>>◌}
use yoma.Dict
use yoma.Dict.{Dict}
use yoma.Sorted.{sort_by}
use yoma.Value.{Value, Mapping}
use yoma.Sync.Model.{
  CloudSyncIdentity, identity_key, CloudSyncState, pending, synced, failed, is_pending,
  CloudSyncPayload, payload_post_init, CloudSyncRecord, record_post_init, CloudSyncResult,
}

abbrev pub Records : Type 0
Records = Dict CloudSyncRecord

-- `self._records[key]`
abbrev pub looked_up : String → Option CloudSyncRecord → Result CloudSyncRecord
looked_up key none = err (key_error key)
looked_up key (some r) = ok r

-- A record after one more attempt.
abbrev pub attempted : CloudSyncState → Option String → CloudSyncRecord → CloudSyncRecord
attempted state error r = record r { state = state; attempts = suc r.attempts; last_error = error }

-- What `mark_synced` and `mark_failed` share: the record under the key is made again and stored.
unfoldable pub mark : CloudSyncState → Option String → String → Exec Records CloudSyncRecord
mark state error key = do
  old ← gets (λ d. Dict.get d key)
  r ← lift (looked_up key old)
  u ← lift (record_post_init (attempted state error r))
  modify (λ d. Dict.put d key u)
  return u

unfoldable pub mark_synced : String → Exec Records CloudSyncRecord
mark_synced key = mark synced none key

unfoldable pub mark_failed : String → String → Exec Records CloudSyncRecord
mark_failed key error = do
  lift (raise_if (is_blank error) (value_error "error must be a non-empty string"))
  mark failed (some error) key

unfoldable pub pending_records : Records → List CloudSyncRecord
pending_records d = keep (λ (r : CloudSyncRecord). is_pending r.state) (Dict.values d)

-- Storing a record under a key, unless one is there.
abbrev pub enter : String → CloudSyncRecord → Option CloudSyncRecord → Exec Records CloudSyncRecord
enter key r (some existing) = return existing
enter key r none = do modify (λ d. Dict.put d key r); return r

module _ (sha256 : String → String) where
  abbrev pub hashed : CloudSyncIdentity → String → String
  hashed i event_id = sha256 (concat (identity_key i) (concat ":" event_id))

  abbrev pub idempotency_key : CloudSyncRecord → String
  idempotency_key r = hashed r.identity r.payload.event_id

  unfoldable pub enqueue : CloudSyncRecord → Exec Records CloudSyncRecord
  enqueue r d = enter (idempotency_key r) r (Dict.get d (idempotency_key r)) d

  module _ (fromisoformat : String → Bool) (replace_z : String → String)
      (identity : CloudSyncIdentity) where
    abbrev pub payload_of : String → String → String → Option Mapping → CloudSyncPayload
    payload_of event_type event_id occurred_at values = record {
      event_type = event_type;
      event_id = event_id;
      occurred_at = occurred_at;
      content = sort_by (λ (x y : String × Value). text_leb x.0 y.0) (or_default values []);
    }

    abbrev pub record_of : CloudSyncPayload → CloudSyncRecord
    record_of p = record {
      sync_id = hashed identity p.event_id;
      identity = identity;
      payload = p;
      state = pending;
      attempts = 0;
      last_error = none;
    }

    -- The two constructors that `prepare` calls.
    unfoldable pub made_record : String → String → String → Option Mapping → Result CloudSyncRecord
    made_record event_type event_id occurred_at values =
        Outcome.◌>>=◌
          (payload_post_init fromisoformat replace_z
            (payload_of event_type event_id occurred_at values))
          (λ p. record_post_init (record_of p))

    unfoldable pub prepare :
        String → String → String → Option Mapping → Exec Records CloudSyncRecord
    prepare event_type event_id occurred_at values = do
      r ← lift (made_record event_type event_id occurred_at values)
      enqueue r

abbrev pub result_of : CloudSyncRecord → Bool → Option String → CloudSyncResult
result_of r accepted error = record {
  sync_id = r.sync_id;
  state = r.state;
  accepted = accepted;
  duplicate = false;
  error = error;
  requires_human_approval = true;
  executable = false;
}

unfoldable pub acknowledge : String → Exec Records CloudSyncResult
acknowledge key = do r ← mark_synced key; return (result_of r true none)

-- The method `fail`.
unfoldable pub fail_sync : String → String → Exec Records CloudSyncResult
fail_sync key error = do r ← mark_failed key error; return (result_of r false r.last_error)
