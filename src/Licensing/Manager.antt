-- ===== src/Licensing/Manager.antt =====
-- `TrialSubscriptionManager`. A time argument that is left out is the clock's; here it is given.
use yoma.Prelude.{
  ℕ, ◌-◌, ◌/◌, String, Bool, false, not, [], ◌∷◌, Option, none, some, ◌==◌, ◌&&◌, leb,
  if◌then◌else◌,
}
use yoma.Result.{Result, ok, err, value_error, runtime_error, raise_if, raise_unless}
use yoma.Exec.{Exec, return, lift, gets, modify, ◌>>=◌, ◌>>◌}
use yoma.Value.{DateTime, earlier, not_later, second}
use yoma.Licensing.License.{LicenseStatus, is_active, YomaLicense, license_post_init}
use yoma.Licensing.Trial.{
  State, trial, active, expired, suspended, is_trial, is_over, runs, TrialSubscription,
  subscription_post_init, edition_of, after_days, SubscriptionStatus,
}

-- `persistent` says whether the manager was given a persistence, and `saved` is what it saved last.
pub record Manager : Type 0 where
  pub organization_id : String
  pub deployment_id : String
  pub now : DateTime
  pub persistent : Bool
  pub saved : Option TrialSubscription
  pub subscription : Option TrialSubscription

-- What the constructor takes over from `load`.
abbrev pub restore : String → String → Option TrialSubscription → Option TrialSubscription
restore organization_id deployment_id none = none
restore organization_id deployment_id (some s) =
    if s.organization_id == organization_id && s.deployment_id == deployment_id
    then some s
    else none

-- The constructor; `loaded` is the result of `load` if there is a persistence, and else `none`.
unfoldable pub new : String → String → DateTime → Bool → Option TrialSubscription → Result Manager
new organization_id deployment_id now persistent loaded =
    if not now.aware
    then err (value_error "now must be timezone-aware")
    else ok (record {
      organization_id = organization_id;
      deployment_id = deployment_id;
      now = now;
      persistent = persistent;
      saved = loaded;
      subscription = restore organization_id deployment_id loaded;
    })

-- `self.subscription = ...`, then `self._persist()`, then the new subscription.
unfoldable pub assign : TrialSubscription → Exec Manager TrialSubscription
assign s = do
  s' ← lift (subscription_post_init s)
  modify (λ m. record m { subscription = some s' })
  modify (λ m. record m { saved = if m.persistent then m.subscription else m.saved })
  return s'

abbrev pub current_or : String → Option TrialSubscription → Result TrialSubscription
current_or message none = err (runtime_error message)
current_or message (some s) = ok s

abbrev pub no_subscription : String
no_subscription = "trial or subscription has not been initialized"

-- The trial that the manager starts, and the subscription that it sells.
abbrev pub trial_of : Manager → DateTime → TrialSubscription
trial_of m at = record {
  organization_id = m.organization_id;
  deployment_id = m.deployment_id;
  started_at = at;
  expires_at = after_days at 14;
  state = trial;
  edition = "professional";
}

abbrev pub paid_of : Manager → DateTime → ℕ → String → TrialSubscription
paid_of m at days edition = record {
  organization_id = m.organization_id;
  deployment_id = m.deployment_id;
  started_at = at;
  expires_at = after_days at days;
  state = active;
  edition = edition;
}

unfoldable pub start_trial : DateTime → Exec Manager TrialSubscription
start_trial at = do
  lift (raise_unless at.aware (value_error "started_at must be timezone-aware"))
  s ← gets (λ m. trial_of m at)
  assign s

unfoldable pub refresh : DateTime → Exec Manager TrialSubscription
refresh now = do
  lift (raise_unless now.aware (value_error "now must be timezone-aware"))
  held ← gets (λ m. m.subscription)
  s ← lift (current_or no_subscription held)
  if is_trial s.state && not_later s.expires_at now
      then assign (record s { state = expired })
      else return s

abbrev pub start_or_refresh : DateTime → Option TrialSubscription → Exec Manager TrialSubscription
start_or_refresh at none = start_trial at
start_or_refresh at (some s) = refresh at

unfoldable pub ensure_initialized : DateTime → Exec Manager TrialSubscription
ensure_initialized at = do held ← gets (λ m. m.subscription); start_or_refresh at held

-- A negative number of days, refused as zero is, has no value here.
unfoldable pub activate_subscription : DateTime → ℕ → String → Exec Manager TrialSubscription
activate_subscription at days edition = do
  lift (raise_unless at.aware (value_error "activated_at must be timezone-aware"))
  lift (raise_if (leb days 0) (value_error "duration_days must be positive"))
  valid ← lift (edition_of edition)
  s ← gets (λ m. paid_of m at days edition)
  assign s

-- `max(current, expires_at)`
abbrev pub later_of : DateTime → DateTime → DateTime
later_of a b = if earlier a b then b else a

unfoldable pub renew_subscription : DateTime → ℕ → Exec Manager TrialSubscription
renew_subscription at days = do
  lift (raise_unless at.aware (value_error "renewed_at must be timezone-aware"))
  lift (raise_if (leb days 0) (value_error "duration_days must be positive"))
  held ← gets (λ m. m.subscription)
  s ← lift (current_or "subscription has not been initialized" held)
  renewed ← gets (λ m. paid_of m (later_of at s.expires_at) days s.edition)
  assign renewed

unfoldable pub suspend : Exec Manager TrialSubscription
suspend = do
  held ← gets (λ m. m.subscription)
  s ← lift (current_or no_subscription held)
  assign (record s { state = suspended })

unfoldable pub can_run_yoma : DateTime → Exec Manager Bool
can_run_yoma now = do s ← refresh now; return (runs s.state)

unfoldable pub notification : DateTime → Exec Manager (Option String)
notification now = do
  s ← refresh now
  return (
      if is_over s.state
      then some "YOMA Trial Expired - activate your subscription to resume YOMA."
      else none)

unfoldable pub status : DateTime → Exec Manager SubscriptionStatus
status now = do
  s ← refresh now
  organization_id ← gets (λ m. m.organization_id)
  deployment_id ← gets (λ m. m.deployment_id)
  return (record {
    organization_id = organization_id;
    deployment_id = deployment_id;
    state = s.state;
    active = runs s.state;
    trial = is_trial s.state;
    expired = is_over s.state;
    remaining_seconds = (s.expires_at.instant - now.instant) / second;
    notification_required = is_over s.state;
    executable = false;
  })

abbrev pub license_status : State → LicenseStatus
license_status expired = LicenseStatus.expired
license_status suspended = LicenseStatus.suspended
license_status _ = LicenseStatus.active

unfoldable pub to_yoma_license : String → DateTime → Exec Manager YomaLicense
to_yoma_license license_id now = do
  lift (raise_unless now.aware (value_error "now must be timezone-aware"))
  s ← refresh now
  organization_id ← gets (λ m. m.organization_id)
  edition ← lift (edition_of s.edition)
  lift (
      license_post_init (record {
        license_id = license_id;
        organization_id = organization_id;
        edition = edition;
        status = license_status s.state;
        issued_at = s.started_at;
        expires_at = some s.expires_at;
        entitlements = ("yoma", is_active (license_status s.state)) ∷ [];
      }))
