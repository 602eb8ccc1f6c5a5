-- ===== src/Licensing/Moves.antt =====
-- What each call does to the manager: nothing, or a new subscription.
use yoma.Prelude.{
  ℕ, String, ◌≡◌, ◌&&◌, leb, Bool-cases, Option-cases, inl, inr, refl, ap, sym, subst,
}
use yoma.Result.{Result, Result-cases}
use yoma.Value.{DateTime, not_later}
use yoma.Licensing.Trial.{State, is_trial, TrialSubscription, edition_of}
use yoma.Licensing.Manager.{
  Manager, assign, start_trial, refresh, ensure_initialized, trial_of, paid_of, start_or_refresh,
  activate_subscription, later_of, renew_subscription, suspend,
}
use yoma.Licensing.Dates.{
  IsManaged, Moves, assign-Moves, start_trial_lem, refresh_over, refresh_going, suspend_lem,
  activate_lem, renew_lem,
}

assigned :
    {m : Manager} {r : Result TrialSubscription × Manager} (s : TrialSubscription)
    → r ≡ assign s m
    → s.organization_id ≡ m.organization_id
    → s.deployment_id ≡ m.deployment_id
    → Moves m r.1
assigned {m} s e org dep = subst (λ x. Moves m x.1) (sym e) (assign-Moves s m org dep)

pub start_trial-Moves : (at : DateTime) (m : Manager) → Moves m (start_trial at m).1
unfolding start_trial
start_trial-Moves at m = elim (Bool-cases at.aware) [
  | inr naive ↦ inl (rw naive)
  | inl aware ↦ assigned (trial_of m at) (start_trial_lem at m aware) refl refl
]

pub refresh-Moves : (now : DateTime) (m : Manager) → IsManaged m → Moves m (refresh now m).1
unfolding refresh
refresh-Moves now m h = elim (Bool-cases now.aware) [
  | inr naive ↦ inl (rw naive)
  | inl aware ↦ elim (Option-cases m.subscription) [
    | inl without ↦ inl (rw (aware, without))
    | inr (s, has_one) ↦ elim (Bool-cases (is_trial s.state && not_later s.expires_at now)) [
      | inr going ↦ inl (ap (λ r. r.1) (refresh_going now m s aware has_one going))
      | inl over ↦
          assigned (record s { state = State.expired }) (refresh_over now m s aware has_one over)
            (h.organization s has_one) (h.deployment s has_one)
    ]
  ]
]

pub suspend-Moves : (m : Manager) → IsManaged m → Moves m (suspend m).1
unfolding suspend
suspend-Moves m h = elim (Option-cases m.subscription) [
  | inl without ↦ inl (rw without)
  | inr (s, has_one) ↦
      assigned (record s { state = State.suspended }) (suspend_lem m s has_one)
        (h.organization s has_one) (h.deployment s has_one)
]

pub activate-Moves :
    (at : DateTime) (days : ℕ) (edition : String) (m : Manager)
    → Moves m (activate_subscription at days edition m).1
unfolding activate_subscription
activate-Moves at days edition m = elim (Bool-cases at.aware) [
  | inr naive ↦ inl (rw naive)
  | inl aware ↦ elim (Bool-cases (leb days 0)) [
    | inl zero_days ↦ inl (rw (aware, zero_days))
    | inr positive ↦ elim (Result-cases (edition_of edition)) [
      | inl (e, unknown) ↦ inl (rw (aware, positive, unknown))
      | inr (ed, known) ↦
          assigned (paid_of m at days edition) (activate_lem at days edition m aware positive known)
            refl refl
    ]
  ]
]

pub renew-Moves :
    (at : DateTime) (days : ℕ) (m : Manager) → Moves m (renew_subscription at days m).1
unfolding renew_subscription
renew-Moves at days m = elim (Bool-cases at.aware) [
  | inr naive ↦ inl (rw naive)
  | inl aware ↦ elim (Bool-cases (leb days 0)) [
    | inl zero_days ↦ inl (rw (aware, zero_days))
    | inr positive ↦ elim (Option-cases m.subscription) [
      | inl without ↦ inl (rw (aware, positive, without))
      | inr (s, has_one) ↦
          assigned (paid_of m (later_of at s.expires_at) days s.edition)
            (renew_lem at days m s aware positive has_one) refl refl
    ]
  ]
]

pub ensure-Moves : (at : DateTime) (m : Manager) → IsManaged m → Moves m (ensure_initialized at m).1
unfolding ensure_initialized
ensure-Moves at m h = elim (Option-cases m.subscription) [
  | inl without ↦
      subst (λ x. Moves m x.1) (sym (ap (λ o. start_or_refresh at o m) without))
        (start_trial-Moves at m)
  | inr (s, has_one) ↦
      subst (λ x. Moves m x.1) (sym (ap (λ o. start_or_refresh at o m) has_one))
        (refresh-Moves at m h)
]
