-- ===== src/Licensing/RoundTrip.antt =====
-- What is saved is loaded again.
use yoma.Prelude.{String, ◌≡◌, refl, none, some, Option, ap}
use yoma.Result.{ok}
use yoma.Dict
use yoma.Value.{Mapping, DateTime}
use yoma.Licensing.Trial.{
  State, trial, active, expired, suspended, TrialSubscription, subscription_post_init,
}
use yoma.Licensing.Activation.{ActivationStatus}
use yoma.Licensing.Persistence.{
  optional_text, optional_of, caught, Json, object, state_value, state_of, status_value, status_of,
  PersistedActivation, activation_payload, as_dict, subscription_from, activation_from,
  save_activation, load_activation, save_subscription, load_subscription,
}

-- `loads` gives back a mapping with the same entries, perhaps in another order.
abbrev pub Reads : {T : Type 0} → (Mapping → T) → (T → Option Json) → Type 0
Reads dumps loads =
    (m : Mapping)
    → (m' : Mapping) × (loads (dumps m) ≡ some (object m'))
      × ((k : String) → Dict.get m' k ≡ Dict.get m k)

state_of-state_value : (s : State) → state_of (state_value s) ≡ some s
state_of-state_value trial = refl
state_of-state_value active = refl
state_of-state_value expired = refl
state_of-state_value suspended = refl

status_of-status_value : (s : ActivationStatus) → status_of (status_value s) ≡ some s
status_of-status_value ActivationStatus.inactive = refl
status_of-status_value ActivationStatus.active = refl
status_of-status_value ActivationStatus.deactivated = refl

module _ (isoformat : DateTime → String) (fromisoformat : String → Option DateTime) where
  subscription_read :
      (s : TrialSubscription) (m : Mapping)
      → ((k : String) → Dict.get m k ≡ Dict.get (as_dict isoformat s) k)
      → subscription_post_init s ≡ ok s
      → fromisoformat (isoformat s.started_at) ≡ some s.started_at
      → fromisoformat (isoformat s.expires_at) ≡ some s.expires_at
      → subscription_from fromisoformat (object m) ≡ some s
  unfolding Dict.get
  subscription_read s m same valid started expires =
      simp
        (
          same "organization_id",
          same "deployment_id",
          same "started_at",
          same "expires_at",
          same "state",
          same "edition",
          started,
          expires,
          state_of-state_value s.state,
        )
        (ap caught valid)

optional_of-optional_text : (o : Option String) → optional_of (some (optional_text o)) ≡ some o
optional_of-optional_text none = refl
optional_of-optional_text (some t) = refl

activation_read :
    (a : PersistedActivation) (m : Mapping)
    → ((k : String) → Dict.get m k ≡ Dict.get (activation_payload a) k)
    → activation_from (object m) ≡ some a
unfolding Dict.get
activation_read a m same = simp (
  same "license_id",
  same "organization_id",
  same "status",
  same "activated_at",
  optional_of-optional_text a.activated_at,
  status_of-status_value a.status,
)

module _ {T : Type 0} (dumps : Mapping → T) (loads : T → Option Json)
    (isoformat : DateTime → String) (fromisoformat : String → Option DateTime) where
  -- If JSON gives back what it wrote, and so do the texts of the two times, then loading behind a
  -- save returns what was saved, whatever the file held before: a subscription of the constructor,
  -- and an activation.
  pub saved_state_returns :
      (s : TrialSubscription) (a : PersistedActivation) (file : Option T)
      → Reads dumps loads
      → subscription_post_init s ≡ ok s
      → fromisoformat (isoformat s.started_at) ≡ some s.started_at
      → fromisoformat (isoformat s.expires_at) ≡ some s.expires_at
      → (load_subscription dumps loads isoformat fromisoformat
            (save_subscription dumps loads isoformat fromisoformat s file).1
          ≡ some s)
        × (load_activation dumps loads (save_activation dumps loads a file).1 ≡ some a)
  unfolding load_subscription save_subscription load_activation save_activation
  saved_state_returns s a file reads valid started expires =
      let (m, read, same) = reads (as_dict isoformat s) in
      let (n, read', same') = reads (activation_payload a) in
      (
        simp read (subscription_read isoformat fromisoformat s m same valid started expires),
        simp read' (activation_read a n same'),
      )
