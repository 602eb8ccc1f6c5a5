-- ===== src/Licensing/Enforcement.antt =====
-- licensing/entitlements.py and licensing/enforcement.py: `LicenseEntitlementResolver` and
-- `LicenseEnforcementBoundary`.
use yoma.Prelude.{
  String, Bool, ◌≡◌, refl, true, false, not, ◌&&◌, List, [], ◌∷◌, Option, none, some, is_blank,
  or_default, concat, text_leb, if◌then◌else◌, Bool-cases, Option-cases, inl, inr, arith, sym, ◌∙◌,
}
use yoma.Result.{Result, ok, value_error, raise_if, raise_unless, ◌>>=◌, ◌>>◌}
use yoma.Sorted.{sort_by}
use yoma.Dict
use yoma.Dict.{Dict}
use yoma.Value.{DateTime, not_later}
use yoma.Licensing.License.{
  ProductEdition, YomaLicense, is_active, status_value, has_entitlement, is_expired, validate,
  validation, LicenseValidationResult,
}

pub record EntitlementResult : Type 0 where
  pub capability : String
  pub entitled : Bool
  pub edition : ProductEdition
  pub reason : String

unfoldable pub resolve : YomaLicense → String → Result EntitlementResult
resolve l capability = do
  raise_if (is_blank capability) (value_error "capability must not be empty")
  entitled ← has_entitlement l capability
  ok (record {
    capability = capability;
    entitled = entitled;
    edition = l.edition;
    reason = if entitled then "capability_entitled" else "capability_not_entitled";
  })

unfoldable pub resolve_many : YomaLicense → List String → Result (List EntitlementResult)
resolve_many l [] = ok []
resolve_many l (capability ∷ capabilities) = do
  r ← resolve l capability
  rs ← resolve_many l capabilities
  ok (r ∷ rs)

-- The keys whose value is true.
abbrev pub granted : Dict Bool → List String
granted [] = []
granted ((k, entitled) ∷ d) = let rest = granted d in if entitled then k ∷ rest else rest

unfoldable pub entitled_capabilities : YomaLicense → List String
entitled_capabilities l = sort_by text_leb (granted l.entitlements)

pub record LicenseAccessDecision : Type 0 where
  pub capability : String
  pub allowed : Bool
  pub license_id : String
  pub organization_id : String
  pub reason : String
  pub requires_human_approval : Bool
  pub executable : Bool

abbrev pub decision : YomaLicense → String → Bool → String → LicenseAccessDecision
decision l capability allowed reason = record {
  capability = capability;
  allowed = allowed;
  license_id = l.license_id;
  organization_id = l.organization_id;
  reason = reason;
  requires_human_approval = true;
  executable = false;
}

abbrev pub resolved : YomaLicense → String → EntitlementResult → LicenseAccessDecision
resolved l capability e = decision l capability e.entitled e.reason

unfoldable pub check : YomaLicense → String → DateTime → Result LicenseAccessDecision
check l capability now = do
  raise_unless now.aware (value_error "now must be timezone-aware")
  v ← validate l now
  if not v.valid
      then ok (decision l capability false (concat "license_invalid:" v.reason))
      else resolve l capability >>= λ e. ok (resolved l capability e)

-- Whether a license has ended at a time.
abbrev pub ended : Option DateTime → DateTime → Bool
ended none now = false
ended (some end) now = not_later end now

abbrev pub is_current : YomaLicense → DateTime → Bool
is_current l now = is_active l.status && not (ended l.expires_at now)

validate_lem :
    (l : YomaLicense) (now : DateTime)
    → now.aware ≡ true
    → (r : LicenseValidationResult) × (validate l now ≡ ok r) × (r.valid ≡ is_current l now)
unfolding validate is_expired
validate_lem l now aware = elim (Bool-cases (is_active l.status)) [
  | inr other ↦ (
    validation l false (concat "license_status:" (status_value l.status)),
    simp (aware, other),
    ground (arith, other),
  )
  | inl active ↦ elim (Option-cases l.expires_at) [
    | inl endless ↦
        (validation l true "license_valid", simp (aware, active, endless), simp (active, endless))
    | inr (end, ends) ↦ elim (Bool-cases (not_later end now)) [
      | inl late ↦ (
        validation l false "license_expired",
        simp (aware, active, ends, late),
        simp (active, ends, late),
      )
      | inr early ↦ (
        validation l true "license_valid",
        simp (aware, active, ends, early),
        simp (active, ends, early),
      )
    ]
  ]
]

-- At an aware time, for a capability that is not blank, the boundary always decides: it allows the
-- capability exactly if the license is active, has not ended, and lists the capability as true; and
-- no decision is executable or needs no human approval.
pub check_decides :
    (l : YomaLicense) (capability : String) (now : DateTime)
    → now.aware ≡ true
    → is_blank capability ≡ false
    → (d : LicenseAccessDecision) × (check l capability now ≡ ok d)
      × (d.allowed ≡ (is_current l now && or_default (Dict.get l.entitlements capability) false))
      × (d.requires_human_approval ≡ true)
      × (d.executable ≡ false)
unfolding check resolve has_entitlement
check_decides l capability now aware named =
    let (r, done, valid) = validate_lem l now aware in
    elim (Bool-cases r.valid) [
      | inr invalid ↦ (
        decision l capability false (concat "license_invalid:" r.reason),
        simp (aware, done, invalid),
        simp (sym valid ∙ invalid),
        refl,
        refl,
      )
      | inl is_valid ↦
          let entitled = or_default (Dict.get l.entitlements capability) false in
          (
            decision l capability entitled
                (if entitled then "capability_entitled" else "capability_not_entitled"),
            simp (aware, done, is_valid, named),
            simp (sym valid ∙ is_valid),
            refl,
            refl,
          )
    ]
