-- ===== src/Licensing/Trial.antt =====
-- `TrialSubscription` with the checks of its constructor, and `SubscriptionStatus`.
use yoma.Prelude.{ℕ, ◌+◌, ◌*◌, String, Bool, true, false, ◌==◌, concat, if◌then◌else◌}
use yoma.Result.{Result, ok, err, value_error, raise_if, raise_unless, ◌>>◌}
use yoma.Value.{DateTime, earlier, day}
use yoma.Licensing.License.{ProductEdition, community, professional, enterprise}

pub data State : Type 0 where
  trial active expired suspended : State

abbrev pub is_trial : State → Bool
is_trial trial = true
is_trial _ = false

abbrev pub is_over : State → Bool
is_over expired = true
is_over _ = false

-- `state in (TRIAL, ACTIVE)`
abbrev pub runs : State → Bool
runs trial = true
runs active = true
runs _ = false

pub record TrialSubscription : Type 0 where
  pub organization_id : String
  pub deployment_id : String
  pub started_at : DateTime
  pub expires_at : DateTime
  pub state : State
  pub edition : String

unfoldable pub subscription_post_init : TrialSubscription → Result TrialSubscription
subscription_post_init s = do
  raise_unless s.started_at.aware (value_error "started_at must be timezone-aware")
  raise_unless s.expires_at.aware (value_error "expires_at must be timezone-aware")
  raise_if (earlier s.expires_at s.started_at)
      (value_error "expires_at must not precede started_at")
  ok s

-- `ProductEdition(edition)`
unfoldable pub edition_of : String → Result ProductEdition
edition_of name =
    if name == "community"
    then ok community
    else if name == "professional"
    then ok professional
    else if name == "enterprise"
    then ok enterprise
    else err (value_error (concat name " is not a valid ProductEdition"))

-- `at + timedelta(days=days)`
abbrev pub after_days : DateTime → ℕ → DateTime
after_days at days = record at { instant = at.instant + days * day }

pub record SubscriptionStatus : Type 0 where
  pub organization_id : String
  pub deployment_id : String
  pub state : State
  pub active : Bool
  pub trial : Bool
  pub expired : Bool
  pub remaining_seconds : ℕ
  pub notification_required : Bool
  pub executable : Bool
