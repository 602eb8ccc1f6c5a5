-- ===== src/Tests/Licensing.antt =====
-- Examples for trials and subscriptions.
use yoma.Prelude.{ℕ, ◌*◌, ◌≡◌, refl, true, false, [], ◌∷◌, none, some, is_blank}
use yoma.Result.{ok}
use yoma.Value.{DateTime, day}
use yoma.Licensing.License.{
  LicenseStatus, ProductEdition, YomaLicense, LicenseValidationResult, validate,
}
use yoma.Licensing.Trial.{edition_of}
use yoma.Licensing.Manager.{Manager, new, trial_of, paid_of, can_run_yoma, to_yoma_license}
use yoma.Licensing.Dates.{IsManaged}
use yoma.Licensing.Lifetime.{Query, ask_all, Op, perform_all, IsManaged-throughout}
use yoma.Dict
use yoma.Licensing.Enforcement.{LicenseAccessDecision, check, check_decides}
use yoma.Licensing.Access.{settled_access, trial_access, license_access}

abbrev pub on_day : ℕ → DateTime
on_day n = record { instant = n * day; aware = true }

abbrev pub empty : Manager
empty = record {
  organization_id = "ORG";
  deployment_id = "DEP";
  now = on_day 0;
  persistent = true;
  saved = none;
  subscription = none;
}

abbrev in_trial : Manager
in_trial = record empty { subscription = some (trial_of empty (on_day 0)) }

abbrev paid : Manager
paid = record empty { subscription = some (paid_of empty (on_day 0) 30 "enterprise") }

IsManaged-throughout_example :
    IsManaged (
      perform_all empty
        (Op.starts (on_day 0) ∷ Op.asks (Query.runs (on_day 15)) ∷ Op.suspends ∷ []))
unfolding new
IsManaged-throughout_example =
    IsManaged-throughout "ORG" "DEP" (on_day 0) true none empty
      (Op.starts (on_day 0) ∷ Op.asks (Query.runs (on_day 15)) ∷ Op.suspends ∷ []) tt refl

-- Asked on day 15, the trial ends, and day 3 does not bring it back.
trial_access_example :
    (can_run_yoma (on_day 3) (ask_all in_trial (Query.runs (on_day 15) ∷ []))).0 ≡ ok false
trial_access_example =
    trial_access in_trial (trial_of empty (on_day 0)) (Query.runs (on_day 15) ∷ []) (on_day 3) refl
      (record { started = refl; expires = refl; ordered = refl }) refl (refl, tt) refl

-- A paid month is still running after a year.
settled_access_example :
    (ask_all paid (Query.reports (on_day 31) ∷ []) ≡ paid)
    × ((can_run_yoma (on_day 365) (ask_all paid (Query.reports (on_day 31) ∷ []))).0 ≡ ok true)
settled_access_example =
    settled_access paid (paid_of empty (on_day 0) 30 "enterprise") (Query.reports (on_day 31) ∷ [])
      (on_day 365) refl refl (refl, tt) refl

license_access_example :
    (l : YomaLicense) × (r : LicenseValidationResult) × ((to_yoma_license "LIC" (on_day 31) paid).0
      ≡ ok l)
    × (validate l (on_day 31) ≡ ok r)
    × (r.valid ≡ false)
unfolding edition_of is_blank
license_access_example =
    license_access paid (paid_of empty (on_day 0) 30 "enterprise") "LIC" ProductEdition.enterprise
      (on_day 31) refl (record { started = refl; expires = refl; ordered = refl }) refl refl refl
      refl

abbrev license : YomaLicense
license = record {
  license_id = "LIC";
  organization_id = "ORG";
  edition = ProductEdition.enterprise;
  status = LicenseStatus.active;
  issued_at = on_day 0;
  expires_at = some (on_day 30);
  entitlements = ("yoma", true) ∷ ("voice", false) ∷ [];
}

check_decides_example :
    (d : LicenseAccessDecision) × (check license "yoma" (on_day 29) ≡ ok d)
    × (d.allowed ≡ true)
    × (d.requires_human_approval ≡ true)
    × (d.executable ≡ false)
unfolding is_blank Dict.get
check_decides_example = check_decides license "yoma" (on_day 29) refl refl
