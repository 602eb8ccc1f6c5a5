-- ===== src/Licensing/Dates.antt =====
-- Subscriptions that a manager may hold, and the calls that get as far as a new one.
use yoma.Prelude.{
  ℕ, String, ◌≡◌, true, false, some, ◌&&◌, leb, if◌then◌else◌, Bool-cases, inl, inr, refl, sym,
  subst, ◌⊎◌,
}
use yoma.Result.{Error, value_error, ok, err}
use yoma.Value.{DateTime, earlier, not_later}
use yoma.Licensing.License.{ProductEdition}
use yoma.Licensing.Trial.{State, is_trial, TrialSubscription, subscription_post_init, edition_of}
use yoma.Licensing.Manager.{
  Manager, assign, start_trial, refresh, trial_of, paid_of, activate_subscription, later_of,
  renew_subscription, suspend,
}

pub record IsDated (s : TrialSubscription) : Type 0 where
  pub started : s.started_at.aware ≡ true
  pub expires : s.expires_at.aware ≡ true
  pub ordered : earlier s.expires_at s.started_at ≡ false

-- A subscription that the manager holds is dated and its own, and is the one that was saved.
pub record IsManaged (m : Manager) : Type 0 where
  pub dated : (s : TrialSubscription) → m.subscription ≡ some s → IsDated s
  pub organization :
      (s : TrialSubscription) → m.subscription ≡ some s → s.organization_id ≡ m.organization_id
  pub deployment :
      (s : TrialSubscription) → m.subscription ≡ some s → s.deployment_id ≡ m.deployment_id
  pub saved :
      (s : TrialSubscription) → m.subscription ≡ some s → m.persistent ≡ true → m.saved ≡ some s

-- The manager with a new subscription.
abbrev pub held : Manager → TrialSubscription → Manager
held m s = record m { subscription = some s; saved = if m.persistent then some s else m.saved }

pub post_init_cases :
    (s : TrialSubscription)
    → ((e : Error) × (subscription_post_init s ≡ err e))
      ⊎ ((subscription_post_init s ≡ ok s) × IsDated s)
unfolding subscription_post_init
post_init_cases s = elim (Bool-cases s.started_at.aware) [
  | inr naive ↦ inl (value_error "started_at must be timezone-aware", rw naive)
  | inl started ↦ elim (Bool-cases s.expires_at.aware) [
    | inr naive ↦ inl (value_error "expires_at must be timezone-aware", rw (started, naive))
    | inl expires ↦ elim (Bool-cases (earlier s.expires_at s.started_at)) [
      | inl early ↦
          inl (value_error "expires_at must not precede started_at", rw (started, expires, early))
      | inr ordered ↦ inr (
        rw (started, expires, ordered),
        record { started = started; expires = expires; ordered = ordered },
      )
    ]
  ]
]

pub assign_lem : (s : TrialSubscription) (m : Manager) → IsDated s → assign s m ≡ (ok s, held m s)
unfolding assign subscription_post_init
assign_lem s m d = rw (d.started, d.expires, d.ordered) refl

pub some_inj : {a b : TrialSubscription} → some a ≡ some b → a ≡ b
some_inj h = cc

held-IsManaged :
    (m : Manager) (s : TrialSubscription)
    → IsDated s
    → s.organization_id ≡ m.organization_id
    → s.deployment_id ≡ m.deployment_id
    → IsManaged (held m s)
held-IsManaged m s d org dep = record {
  dated = λ t e. subst IsDated (some_inj e) d;
  organization = λ t e. subst (λ x. x.organization_id ≡ m.organization_id) (some_inj e) org;
  deployment = λ t e. subst (λ x. x.deployment_id ≡ m.deployment_id) (some_inj e) dep;
  saved = λ t e p. rw p e;
}

-- What a call does to the manager: nothing, or a new subscription, dated and its own.
abbrev pub Moves : Manager → Manager → Type 0
Moves m m' =
    (m' ≡ m)
    ⊎ ((s : TrialSubscription) × (m' ≡ held m s)
        × IsDated s
        × (s.organization_id ≡ m.organization_id)
        × (s.deployment_id ≡ m.deployment_id))

pub Moves-IsManaged : (m m' : Manager) → Moves m m' → IsManaged m → IsManaged m'
Moves-IsManaged m m' (inl same) h = subst IsManaged (sym same) h
Moves-IsManaged m m' (inr (s, e, d, org, dep)) h =
    subst IsManaged (sym e) (held-IsManaged m s d org dep)

pub assign-Moves :
    (s : TrialSubscription) (m : Manager)
    → s.organization_id ≡ m.organization_id
    → s.deployment_id ≡ m.deployment_id
    → Moves m (assign s m).1
unfolding assign
assign-Moves s m org dep = elim (post_init_cases s) [
  | inl (e, refused) ↦ inl (rw refused)
  | inr (accepted, d) ↦ inr (s, rw accepted, d, org, dep)
]

-- The calls that get as far as a new subscription, as its assignment.
pub start_trial_lem :
    (at : DateTime) (m : Manager) → at.aware ≡ true → start_trial at m ≡ assign (trial_of m at) m
unfolding start_trial
start_trial_lem at m aware = rw aware refl

pub refresh_over :
    (now : DateTime) (m : Manager) (s : TrialSubscription)
    → now.aware ≡ true
    → m.subscription ≡ some s
    → (is_trial s.state && not_later s.expires_at now) ≡ true
    → refresh now m ≡ assign (record s { state = State.expired }) m
unfolding refresh
refresh_over now m s aware has_one over = rw (aware, has_one, over) refl

pub refresh_going :
    (now : DateTime) (m : Manager) (s : TrialSubscription)
    → now.aware ≡ true
    → m.subscription ≡ some s
    → (is_trial s.state && not_later s.expires_at now) ≡ false
    → refresh now m ≡ (ok s, m)
unfolding refresh
refresh_going now m s aware has_one going = rw (aware, has_one, going) refl

pub suspend_lem :
    (m : Manager) (s : TrialSubscription)
    → m.subscription ≡ some s
    → suspend m ≡ assign (record s { state = State.suspended }) m
unfolding suspend
suspend_lem m s has_one = rw has_one refl

pub activate_lem :
    (at : DateTime) (days : ℕ) (edition : String) (m : Manager) {ed : ProductEdition}
    → at.aware ≡ true
    → leb days 0 ≡ false
    → edition_of edition ≡ ok ed
    → activate_subscription at days edition m ≡ assign (paid_of m at days edition) m
unfolding activate_subscription
activate_lem at days edition m aware positive known = rw (aware, positive, known) refl

pub renew_lem :
    (at : DateTime) (days : ℕ) (m : Manager) (s : TrialSubscription)
    → at.aware ≡ true
    → leb days 0 ≡ false
    → m.subscription ≡ some s
    → renew_subscription at days m ≡ assign (paid_of m (later_of at s.expires_at) days s.edition) m
unfolding renew_subscription
renew_lem at days m s aware positive has_one = rw (aware, positive, has_one) refl
