-- ===== src/Licensing/Persistence.antt =====
-- `TrialSubscriptionPersistence` (trial_persistence.py) and `LicensePersistence` (persistence.py).
-- The state is the content of the file at the path, if there is one; an error of the file system is
-- left out. JSON and the text form of times are the library's: `dumps` gives a text `T`, and `loads`
-- a mapping, another value, or no value if it raises.
use yoma.Prelude.{String, [], ◌∷◌, Option, none, some, ◌==◌, if◌then◌else◌}
use yoma.Result.{Result, ok, err}
use yoma.Exec.{Exec, modify}
use yoma.Dict
use yoma.Value.{Value, absent, flag, number, text, Mapping, DateTime}
use yoma.Licensing.Trial.{
  State, trial, active, expired, suspended, TrialSubscription, subscription_post_init,
}
use yoma.Licensing.Activation as Activation
use yoma.Licensing.Activation.{ActivationStatus, inactive, deactivated}

-- What `json.loads` returns.
pub data Json : Type 0 where
  object : Mapping → Json
  other : Json

abbrev pub state_value : State → String
state_value trial = "trial"
state_value active = "active"
state_value expired = "expired"
state_value suspended = "suspended"

-- `TrialSubscriptionState(state)`; none stands for its exception.
abbrev pub state_of : String → Option State
state_of name =
    if name == "trial"
    then some trial
    else if name == "active"
    then some active
    else if name == "expired"
    then some expired
    else if name == "suspended"
    then some suspended
    else none

abbrev pub status_value : ActivationStatus → String
status_value inactive = "inactive"
status_value Activation.active = "active"
status_value deactivated = "deactivated"

abbrev pub status_of : String → Option ActivationStatus
status_of name =
    if name == "inactive"
    then some inactive
    else if name == "active"
    then some Activation.active
    else if name == "deactivated"
    then some deactivated
    else none

-- `payload.get(key)`, if it is a `str`.
abbrev pub str_of : Option Value → Option String
str_of none = none
str_of (some (text s)) = some s
str_of (some _) = none

infixl 5 ◌>>=◌
abbrev ◌>>=◌ {ℓ κ} : {A : Type ℓ} {B : Type κ} → Option A → (A → Option B) → Option B
none >>= f = none
some a >>= f = f a

-- The exceptions of the constructor are caught.
abbrev pub caught {ℓ} : {A : Type ℓ} → Result A → Option A
caught (ok a) = some a
caught (err e) = none

pub record PersistedActivation : Type 0 where
  pub license_id : String
  pub organization_id : String
  pub status : ActivationStatus
  pub activated_at : Option String

abbrev pub optional_text : Option String → Value
optional_text none = absent
optional_text (some s) = text s

-- `activated_at` of the payload: a text, or None, which a missing key gives too.
abbrev pub optional_of : Option Value → Option (Option String)
optional_of none = some none
optional_of (some absent) = some none
optional_of (some (text s)) = some (some s)
optional_of (some (flag b)) = none
optional_of (some (number n)) = none

abbrev pub activation_payload : PersistedActivation → Mapping
activation_payload a =
    ("license_id", text a.license_id)
    ∷ ("organization_id", text a.organization_id)
    ∷ ("status", text (status_value a.status))
    ∷ ("activated_at", optional_text a.activated_at)
    ∷ []

abbrev pub activation_from : Json → Option PersistedActivation
activation_from other = none
activation_from (object p) = do
  license_id ← str_of (Dict.get p "license_id")
  organization_id ← str_of (Dict.get p "organization_id")
  name ← str_of (Dict.get p "status")
  activated_at ← optional_of (Dict.get p "activated_at")
  status ← status_of name
  some (record {
    license_id = license_id;
    organization_id = organization_id;
    status = status;
    activated_at = activated_at;
  })

abbrev pub as_dict : (DateTime → String) → TrialSubscription → Mapping
as_dict isoformat s =
    ("organization_id", text s.organization_id)
    ∷ ("deployment_id", text s.deployment_id)
    ∷ ("started_at", text (isoformat s.started_at))
    ∷ ("expires_at", text (isoformat s.expires_at))
    ∷ ("state", text (state_value s.state))
    ∷ ("edition", text s.edition)
    ∷ []

abbrev pub subscription_from : (String → Option DateTime) → Json → Option TrialSubscription
subscription_from fromisoformat other = none
subscription_from fromisoformat (object p) = do
  organization_id ← str_of (Dict.get p "organization_id")
  deployment_id ← str_of (Dict.get p "deployment_id")
  started ← str_of (Dict.get p "started_at")
  expires ← str_of (Dict.get p "expires_at")
  name ← str_of (Dict.get p "state")
  edition ← str_of (Dict.get p "edition")
  started_at ← fromisoformat started
  expires_at ← fromisoformat expires
  state ← state_of name
  caught (
      subscription_post_init (record {
        organization_id = organization_id;
        deployment_id = deployment_id;
        started_at = started_at;
        expires_at = expires_at;
        state = state;
        edition = edition;
      }))

module _ {T : Type 0} (dumps : Mapping → T) (loads : T → Option Json) where
  -- Loading from the file's content.
  abbrev pub load_with {ℓ} : {A : Type ℓ} → (Json → Option A) → Option T → Option A
  load_with read none = none
  load_with read (some content) = loads content >>= read

  unfoldable pub save_activation : PersistedActivation → Exec (Option T) (Unit {0})
  save_activation a = modify (λ file. some (dumps (activation_payload a)))

  unfoldable pub load_activation : Option T → Option PersistedActivation
  load_activation = load_with activation_from

  unfoldable pub clear : Exec (Option T) (Unit {0})
  clear = modify (λ file. none)

  module _ (isoformat : DateTime → String) (fromisoformat : String → Option DateTime) where
    unfoldable pub save_subscription : TrialSubscription → Exec (Option T) (Unit {0})
    save_subscription s = modify (λ file. some (dumps (as_dict isoformat s)))

    unfoldable pub load_subscription : Option T → Option TrialSubscription
    load_subscription = load_with (subscription_from fromisoformat)
