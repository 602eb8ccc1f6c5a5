-- ===== src/Tests/Activation.antt =====
-- Examples for the activation of licenses and for what is kept in files.
use yoma.Prelude.{String, ◌≡◌, refl, [], ◌∷◌, none, some, List, Option, if◌then◌else◌, ◌==◌, eqb}
use yoma.Result.{ok}
use yoma.Value.{Mapping, DateTime}
use yoma.Licensing.License.{LicenseStatus, ProductEdition, YomaLicense, validate, is_expired}
use yoma.Licensing.Trial.{TrialSubscription, subscription_post_init}
use yoma.Licensing.Manager.{trial_of}
use yoma.Licensing.Activation.{deactivate, ActivationStatus, initial, activate, activate_valid}
use yoma.Licensing.Activated.{Op, perform, perform_all, IsGranted, active_was_validated}
use yoma.Licensing.Persistence.{
  Json, PersistedActivation, save_activation, load_activation, save_subscription, load_subscription,
}
use yoma.Licensing.RoundTrip.{saved_state_returns}
use yoma.Tests.Licensing.{on_day, empty}

abbrev license : YomaLicense
license = record {
  license_id = "LIC-1";
  organization_id = "ORG";
  edition = ProductEdition.enterprise;
  status = LicenseStatus.active;
  issued_at = on_day 0;
  expires_at = some (on_day 30);
  entitlements = [];
}

-- A late license is refused, a deactivation does nothing, and a license in time is activated.
abbrev calls : List Op
calls =
    Op.activates license (on_day 31) ∷ Op.deactivates none ∷ Op.activates license (on_day 3) ∷ []

abbrev ThisLicense : YomaLicense → DateTime → Type 0
ThisLicense l now = l ≡ license

active_was_validated_example : IsGranted ThisLicense (perform_all initial calls)
unfolding perform_all perform activate activate_valid validate is_expired deactivate
active_was_validated_example = active_was_validated ThisLicense calls (refl, (tt, (refl, tt))) refl

-- A file whose text is the mapping itself, and texts for two days.
abbrev dumps : Mapping → Mapping
dumps m = m

abbrev loads : Mapping → Option Json
loads m = some (Json.object m)

abbrev isoformat : DateTime → String
isoformat t = if eqb t.instant 0 then "first" else "later"

abbrev fromisoformat : String → Option DateTime
fromisoformat s = if s == "first" then some (on_day 0) else some (on_day 14)

abbrev trial : TrialSubscription
trial = trial_of empty (on_day 0)

abbrev kept : PersistedActivation
kept = record {
  license_id = "LIC-1";
  organization_id = "ORG";
  status = ActivationStatus.active;
  activated_at = some "later";
}

trial_accepted : subscription_post_init trial ≡ ok trial
unfolding subscription_post_init
trial_accepted = refl

saved_state_returns_example :
    (load_subscription dumps loads isoformat fromisoformat
        (save_subscription dumps loads isoformat fromisoformat trial none).1
      ≡ some trial)
    × (load_activation dumps loads (save_activation dumps loads kept none).1 ≡ some kept)
saved_state_returns_example =
    saved_state_returns dumps loads isoformat fromisoformat trial kept none
      (λ m. (m, refl, λ k. refl)) trial_accepted refl refl
