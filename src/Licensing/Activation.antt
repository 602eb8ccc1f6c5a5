-- ===== src/Licensing/Activation.antt =====
-- `LicenseActivationRuntime` (activation.py). The time is given; a given time that is left out is the
-- clock's in `activate`.
use yoma.Prelude.{
  String, Bool, true, false, not, Option, none, some, ◌==◌, ◌&&◌, or_default, concat, if◌then◌else◌,
}
use yoma.Result.{value_error, raise_if, raise_unless}
use yoma.Exec.{Exec, return, lift, gets, modify, ◌>>=◌, ◌>>◌}
use yoma.Value.{DateTime}
use yoma.Licensing.License.{YomaLicense, LicenseValidationResult, validate}

pub data ActivationStatus : Type 0 where
  inactive active deactivated : ActivationStatus

abbrev pub is_active : ActivationStatus → Bool
is_active active = true
is_active _ = false

pub record ActivationResult : Type 0 where
  pub license_id : String
  pub organization_id : String
  pub status : ActivationStatus
  pub changed : Bool
  pub reason : String
  pub activated_at : Option DateTime

pub record Runtime : Type 0 where
  pub status : ActivationStatus
  pub license_id : Option String
  pub organization_id : Option String
  pub activated_at : Option DateTime

abbrev pub initial : Runtime
initial = record {
  status = inactive;
  license_id = none;
  organization_id = none;
  activated_at = none;
}

abbrev pub is_id : Option String → String → Bool
is_id none id = false
is_id (some known) id = known == id

-- The runtime is active for this license already.
abbrev pub is_current : YomaLicense → Runtime → Bool
is_current l s =
    is_active s.status
    && is_id s.license_id l.license_id
    && is_id s.organization_id l.organization_id

-- The result of a call on a license, with the state as it is.
abbrev pub result_for : YomaLicense → Bool → String → Runtime → ActivationResult
result_for l changed reason s = record {
  license_id = l.license_id;
  organization_id = l.organization_id;
  status = s.status;
  changed = changed;
  reason = reason;
  activated_at = s.activated_at;
}

abbrev pub activated : YomaLicense → DateTime → Runtime
activated l current = record {
  status = active;
  license_id = some l.license_id;
  organization_id = some l.organization_id;
  activated_at = some current;
}

-- `activate` behind the validation.
unfoldable pub activate_valid :
    YomaLicense → DateTime → LicenseValidationResult → Exec Runtime ActivationResult
activate_valid l current v s =
    if not v.valid
    then return (result_for l false (concat "activation_rejected:" v.reason) s) s
    else if is_current l s
    then return (result_for l false "already_active" s) s
    else (do modify (λ t. activated l current); gets (result_for l true "activation_successful")) s

unfoldable pub activate : YomaLicense → DateTime → Exec Runtime ActivationResult
activate l current = do
  lift (raise_unless current.aware (value_error "now must be timezone-aware"))
  v ← lift (validate l current)
  activate_valid l current v

abbrev pub is_naive : Option DateTime → Bool
is_naive none = false
is_naive (some now) = not now.aware

abbrev pub idle : String → String → ActivationStatus → ActivationResult
idle license_id organization_id status = record {
  license_id = license_id;
  organization_id = organization_id;
  status = status;
  changed = false;
  reason = "already_inactive";
  activated_at = none;
}

-- `deactivate` on an active runtime.
abbrev pub deactivate_ids : Option String → Option String → Exec Runtime ActivationResult
deactivate_ids none organization_id = return (idle "" "" inactive)
deactivate_ids (some license_id) none = return (idle "" "" inactive)
deactivate_ids (some license_id) (some organization_id) = do
  modify (λ s. record s { status = deactivated; activated_at = none })
  return (record {
    license_id = license_id;
    organization_id = organization_id;
    status = deactivated;
    changed = true;
    reason = "deactivation_successful";
    activated_at = none;
  })

unfoldable pub deactivate : Option DateTime → Exec Runtime ActivationResult
deactivate now = do
  lift (raise_if (is_naive now) (value_error "now must be timezone-aware"))
  s ← gets (λ s. s)
  if not (is_active s.status)
      then return (idle (or_default s.license_id "") (or_default s.organization_id "") s.status)
      else deactivate_ids s.license_id s.organization_id

unfoldable pub reset : Exec Runtime (Unit {0})
reset = modify (λ s. initial)
