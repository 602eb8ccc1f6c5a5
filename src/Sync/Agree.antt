-- ===== src/Sync/Agree.antt =====
-- The buffer beside the queue over `prepare`, `acknowledge`, `fail` and the changes of the connection.
-- The methods that write the buffer alone are not among these calls: `queue`, `queue_many`,
-- `mark_synced`, `mark_failed`, and those that clear.
use yoma.Prelude.{String, Bool, ◌≡◌, refl, List, [], ◌∷◌, ap, sym, ◌∙◌, subst}
use yoma.Sync.Model.{CloudSyncIdentity}
use yoma.Sync.Cloud.{Records}
use yoma.Sync.Offline.{ConnectivityState, Manager, set_state}
use yoma.Sync.Mirror.{
  IsKeyed, mirrored, IsMirrored, acknowledge-IsMirrored, fail-IsMirrored, prepare-IsMirrored, Op,
  prepares, acknowledges, fails, connects, perform, perform_all,
}

module _ (sha256 : String → String) (fromisoformat : String → Bool) (replace_z : String → String)
    (identity : CloudSyncIdentity) where
  perform-IsMirrored :
      (c : ConnectivityState) (d : Records) (op : Op)
      → IsKeyed d
      → (c' : ConnectivityState) × IsMirrored c'
          (perform sha256 fromisoformat replace_z identity (mirrored c d) op)
  unfolding perform set_state
  perform-IsMirrored c d (prepares event_type event_id occurred_at values) h = (
    c,
    prepare-IsMirrored sha256 fromisoformat replace_z identity c d event_type event_id occurred_at
        values h,
  )
  perform-IsMirrored c d (acknowledges key) h = (c, acknowledge-IsMirrored c d h key)
  perform-IsMirrored c d (fails key reason) h = (c, fail-IsMirrored c d h key reason)
  perform-IsMirrored c d (connects c') h = (c', record { shared = d; same = refl; keyed = h })

  perform_all-IsMirrored :
      (s : Manager) (ops : List Op) (c : ConnectivityState)
      → IsMirrored c s
      → (c' : ConnectivityState) × IsMirrored c'
          (perform_all sha256 fromisoformat replace_z identity s ops)
  unfolding perform_all
  perform_all-IsMirrored s [] c m = (c, m)
  perform_all-IsMirrored s (op ∷ ops) c m =
      let (c', m') = perform-IsMirrored c m.shared op m.keyed in
      perform_all-IsMirrored (perform sha256 fromisoformat replace_z identity s op) ops c' (
        subst (λ t. IsMirrored c' (perform sha256 fromisoformat replace_z identity t op))
          (sym m.same) m')

  -- If the local buffer equals the sync manager's queue, and each record stands under its own id,
  -- then after any calls of `prepare_cloud_sync`, `acknowledge_cloud_sync`, `fail_cloud_sync` and
  -- of the setters of the connection, those that raise included, the two are equal still.
  pub buffer_mirrors_queue :
      (s : Manager) (ops : List Op)
      → s.cloud ≡ s.local
      → IsKeyed s.cloud
      → (perform_all sha256 fromisoformat replace_z identity s ops).cloud
        ≡ (perform_all sha256 fromisoformat replace_z identity s ops).local
  buffer_mirrors_queue s ops same h =
      let start : s ≡ mirrored s.connection s.cloud = λ t. record s { local = sym same t } in
      let (c, m) =
        perform_all-IsMirrored s ops s.connection
          (record { shared = s.cloud; same = start; keyed = h }) in
      ap (λ (x : Manager). x.cloud) m.same ∙ sym (ap (λ (x : Manager). x.local) m.same)
