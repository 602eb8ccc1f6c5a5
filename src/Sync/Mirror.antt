-- ===== src/Sync/Mirror.antt =====
-- The local buffer mirrors the queue of the sync manager.
use yoma.Prelude.{
  String, Bool, ◌≡◌, List, [], ◌∷◌, Option, none, some, ◌⊎◌, inl, inr, is_blank, arith, ap,
  Bool-cases, Option-cases,
}
use yoma.Result.{Error, ok, err, key_error, Result-cases}
use yoma.Dict
use yoma.Value.{Mapping}
use yoma.Sync.Model.{
  CloudSyncIdentity, CloudSyncState, synced, failed, CloudSyncRecord, record_post_init,
  payload_post_init,
}
use yoma.Sync.Cloud.{
  Records, idempotency_key, attempted, mark, enqueue, made_record, prepare, acknowledge, fail_sync,
  mark_synced, mark_failed,
}
use yoma.Sync.Offline as Offline
use yoma.Sync.Offline.{
  ConnectivityState, Manager, in_cloud, in_local, queue, acknowledge_cloud_sync, fail_cloud_sync,
  prepare_cloud_sync, set_state,
}

-- Each record stands under its own id.
abbrev pub IsKeyed : Records → Type 0
IsKeyed d = Dict.AllEntries (λ k (r : CloudSyncRecord). r.sync_id ≡ k) d

-- A manager whose two dictionaries are one.
abbrev pub mirrored : ConnectivityState → Records → Manager
mirrored c d = record { connection = c; cloud = d; local = d }

-- What is left is such a manager again.
pub record IsMirrored (c : ConnectivityState) (s : Manager) : Type 0 where
  pub shared : Records
  pub same : s ≡ mirrored c shared
  pub keyed : IsKeyed shared

post_init-same : (r : CloudSyncRecord) {u : CloudSyncRecord} → record_post_init r ≡ ok u → u ≡ r
unfolding record_post_init
post_init-same r h = ground arith

pub mark-ends :
    (state : CloudSyncState) (e : Option String) (key : String) (d : Records)
    → ((x : Error) × (mark state e key d ≡ (err x, d)))
      ⊎ ((r : CloudSyncRecord) × (Dict.get d key ≡ some r)
          × (mark state e key d ≡ (ok (attempted state e r), Dict.put d key (attempted state e r))))
unfolding mark
mark-ends state e key d = elim (Option-cases (Dict.get d key)) [
  | inl unknown ↦ inl (key_error key, simp unknown)
  | inr (r, stands) ↦ elim (Result-cases (record_post_init (attempted state e r))) [
    | inl (x, stops) ↦ inl (x, simp (stands, stops))
    | inr (u, accepted) ↦ inr (
      r,
      stands,
      simp (stands, accepted)
          (ap (λ v. (ok v, Dict.put d key v)) (post_init-same (attempted state e r) accepted)),
    )
  ]
]

marked-IsKeyed :
    (state : CloudSyncState) (e : Option String) (key : String) (d : Records) (r : CloudSyncRecord)
    → IsKeyed d
    → Dict.get d key ≡ some r
    → IsKeyed (Dict.put d key (attempted state e r))
marked-IsKeyed state e key d r h stands =
    Dict.AllEntries-put (λ k (x : CloudSyncRecord). x.sync_id ≡ k) d key (attempted state e r) h
      (Dict.AllEntries-get (λ k (x : CloudSyncRecord). x.sync_id ≡ k) d key r h stands)

module _ (c : ConnectivityState) (d : Records) (h : IsKeyed d) where
  pub unchanged : (s : Manager) → s ≡ mirrored c d → IsMirrored c s
  unchanged s e = record { shared = d; same = e; keyed = h }

  pub acknowledge-IsMirrored :
      (key : String) → IsMirrored c (acknowledge_cloud_sync key (mirrored c d)).1
  unfolding acknowledge_cloud_sync acknowledge mark_synced Offline.mark_synced
  acknowledge-IsMirrored key = elim (mark-ends synced none key d) [
    | inl (x, stops) ↦ unchanged _ (simp stops)
    | inr (r, stands, marks) ↦ record {
      shared = Dict.put d key (attempted synced none r);
      same = simp marks;
      keyed = marked-IsKeyed synced none key d r h stands;
    }
  ]

  pub fail-IsMirrored :
      (key reason : String) → IsMirrored c (fail_cloud_sync key reason (mirrored c d)).1
  unfolding fail_cloud_sync fail_sync mark_failed Offline.mark_failed
  fail-IsMirrored key reason = elim (Bool-cases (is_blank reason)) [
    | inl blank ↦ unchanged _ (simp blank)
    | inr worded ↦ elim (mark-ends failed (some reason) key d) [
      | inl (x, stops) ↦ unchanged _ (simp (worded, stops))
      | inr (r, stands, marks) ↦ record {
        shared = Dict.put d key (attempted failed (some reason) r);
        same = simp (worded, marks);
        keyed = marked-IsKeyed failed (some reason) key d r h stands;
      }
    ]
  ]

pub data Op : Type 0 where
  prepares : String → String → String → Option Mapping → Op
  acknowledges : String → Op
  fails : String → String → Op
  connects : ConnectivityState → Op

module _ (sha256 : String → String) (fromisoformat : String → Bool) (replace_z : String → String)
    (identity : CloudSyncIdentity) where
  made-keyed :
      (event_type event_id occurred_at : String) (values : Option Mapping) (r : CloudSyncRecord)
      → made_record sha256 fromisoformat replace_z identity event_type event_id occurred_at values
        ≡ ok r
      → r.sync_id ≡ idempotency_key sha256 r
  unfolding made_record payload_post_init record_post_init
  made-keyed event_type event_id occurred_at values r made = ground arith

  pub prepare-IsMirrored :
      (c : ConnectivityState) (d : Records) (event_type event_id occurred_at : String)
      (values : Option Mapping)
      → IsKeyed d
      → IsMirrored c
          (prepare_cloud_sync sha256 fromisoformat replace_z identity event_type event_id
            occurred_at values
            (mirrored c d)).1
  unfolding prepare_cloud_sync prepare enqueue queue
  prepare-IsMirrored c d event_type event_id occurred_at values h =
      elim (Result-cases (
        made_record sha256 fromisoformat replace_z identity event_type event_id occurred_at
          values)) [
            | inl (x, stops) ↦ unchanged c d h _ (simp stops)
            | inr (r, made) ↦ elim (Option-cases (Dict.get d (idempotency_key sha256 r))) [
              | inr (x, stands) ↦
                  let own =
                    Dict.AllEntries-get (λ k (y : CloudSyncRecord). y.sync_id ≡ k) d
                      (idempotency_key sha256 r) x h stands in
                  unchanged c d h _ (simp (made, stands, own))
              | inl new ↦
                  let own = made-keyed event_type event_id occurred_at values r made in
                  record {
                    shared = Dict.put d (idempotency_key sha256 r) r;
                    same = simp (made, new, own);
                    keyed =
                        Dict.AllEntries-put (λ k (y : CloudSyncRecord). y.sync_id ≡ k) d
                          (idempotency_key sha256 r) r h own;
                  }
            ]
          ]

  -- The manager that a call leaves, whether it returns or raises.
  unfoldable pub perform : Manager → Op → Manager
  perform s (prepares event_type event_id occurred_at values) =
      (prepare_cloud_sync sha256 fromisoformat replace_z identity event_type event_id occurred_at
        values s).1
  perform s (acknowledges key) = (acknowledge_cloud_sync key s).1
  perform s (fails key reason) = (fail_cloud_sync key reason s).1
  perform s (connects c) = (set_state c s).1

  unfoldable pub perform_all : Manager → List Op → Manager
  unfolding perform
  perform_all s [] = s
  perform_all s (op ∷ ops) = perform_all (perform s op) ops
