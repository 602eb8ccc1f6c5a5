-- ===== src/Licensing/License.antt =====
-- `YomaLicense` with the checks of its constructor, and `LicenseValidator`.
use yoma.Prelude.{
  String, Bool, true, false, not, Option, none, some, is_blank, or_default, concat, if◌then◌else◌,
}
use yoma.Result.{Result, ok, value_error, raise_if, raise_unless, ◌>>=◌, ◌>>◌}
use yoma.Dict
use yoma.Dict.{Dict}
use yoma.Value.{DateTime, earlier, not_later}

pub data LicenseStatus : Type 0 where
  active expired revoked suspended : LicenseStatus

abbrev pub is_active : LicenseStatus → Bool
is_active active = true
is_active _ = false

abbrev pub status_value : LicenseStatus → String
status_value active = "active"
status_value expired = "expired"
status_value revoked = "revoked"
status_value suspended = "suspended"

pub data ProductEdition : Type 0 where
  community professional enterprise : ProductEdition

pub record YomaLicense : Type 0 where
  pub license_id : String
  pub organization_id : String
  pub edition : ProductEdition
  pub status : LicenseStatus
  pub issued_at : DateTime
  pub expires_at : Option DateTime
  pub entitlements : Dict Bool

-- The two tests of `expires_at` against a time, for a license that may have none.
abbrev pub is_naive : Option DateTime → Bool
is_naive none = false
is_naive (some t) = not t.aware

abbrev pub precedes : Option DateTime → DateTime → Bool
precedes none at = false
precedes (some t) at = earlier t at

unfoldable pub license_post_init : YomaLicense → Result YomaLicense
license_post_init l = do
  raise_if (is_blank l.license_id) (value_error "license_id must not be empty")
  raise_if (is_blank l.organization_id) (value_error "organization_id must not be empty")
  raise_unless l.issued_at.aware (value_error "issued_at must be timezone-aware")
  raise_if (is_naive l.expires_at) (value_error "expires_at must be timezone-aware")
  raise_if (precedes l.expires_at l.issued_at) (value_error "expires_at must not precede issued_at")
  ok l

abbrev pub expired_at : DateTime → Option DateTime → Result Bool
expired_at now none = ok false
expired_at now (some t) = do
  raise_unless now.aware (value_error "now must be timezone-aware")
  ok (not_later t now)

unfoldable pub is_expired : YomaLicense → DateTime → Result Bool
is_expired l now = expired_at now l.expires_at

unfoldable pub has_entitlement : YomaLicense → String → Result Bool
has_entitlement l capability = do
  raise_if (is_blank capability) (value_error "capability must not be empty")
  ok (or_default (Dict.get l.entitlements capability) false)

pub record LicenseValidationResult : Type 0 where
  pub valid : Bool
  pub license_id : String
  pub organization_id : String
  pub reason : String

abbrev pub validation : YomaLicense → Bool → String → LicenseValidationResult
validation l valid reason = record {
  valid = valid;
  license_id = l.license_id;
  organization_id = l.organization_id;
  reason = reason;
}

abbrev pub lifetime_result : YomaLicense → Bool → LicenseValidationResult
lifetime_result l true = validation l false "license_expired"
lifetime_result l false = validation l true "license_valid"

-- `LicenseValidator.validate`; the edition has its type, so the last test of the source holds.
unfoldable pub validate : YomaLicense → DateTime → Result LicenseValidationResult
unfolding is_expired
validate l now = do
  raise_unless now.aware (value_error "now must be timezone-aware")
  if not (is_active l.status)
      then ok (validation l false (concat "license_status:" (status_value l.status)))
      else is_expired l now >>= λ late. ok (lifetime_result l late)
