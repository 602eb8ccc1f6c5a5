-- ===== src/Licensing/Access.antt =====
-- Who may run the program, and whose license is valid.
use yoma.Prelude.{
  String, Bool, ◌≡◌, true, false, List, [], ◌∷◌, some, ◌&&◌, Bool-cases, inl, inr, refl, arith, ap,
  sym, ◌∙◌, subst, All, all, is_blank, concat,
}
use yoma.Result.{ok}
use yoma.Value.{DateTime, earlier, not_later}
use yoma.Licensing.License.{
  ProductEdition, is_active, YomaLicense, license_post_init, LicenseValidationResult, validate,
  is_expired, validation, status_value,
}
use yoma.Licensing.Trial.{State, is_trial, runs, TrialSubscription, edition_of}
use yoma.Licensing.Manager.{Manager, refresh, can_run_yoma, to_yoma_license, license_status}
use yoma.Licensing.Dates.{IsDated, held, assign_lem, refresh_over, refresh_going}
use yoma.Licensing.Lifetime.{Query, time_of, ask_all, ask-refresh}

abbrev pub Timed : List Query → Type 0
Timed qs = All (λ q. (time_of q).aware ≡ true) qs

abbrev over : TrialSubscription → TrialSubscription
over s = record s { state = State.expired }

IsDated-over : (s : TrialSubscription) → IsDated s → IsDated (over s)
IsDated-over s d = record { started = d.started; expires = d.expires; ordered = d.ordered }

refresh_ends :
    (now : DateTime) (m : Manager) (s : TrialSubscription)
    → now.aware ≡ true
    → m.subscription ≡ some s
    → IsDated s
    → s.state ≡ State.trial
    → not_later s.expires_at now ≡ true
    → refresh now m ≡ (ok (over s), held m (over s))
refresh_ends now m s aware has_one d trial late =
    refresh_over now m s aware has_one (ground (arith, trial, late))
    ∙ assign_lem (over s) m (IsDated-over s d)

refresh_stays :
    (now : DateTime) (m : Manager) (s : TrialSubscription)
    → now.aware ≡ true
    → m.subscription ≡ some s
    → is_trial s.state ≡ false
    → refresh now m ≡ (ok s, m)
refresh_stays now m s aware has_one settled =
    refresh_going now m s aware has_one (ground (arith, settled))

can_run_lem :
    (now : DateTime) (m m' : Manager) (s : TrialSubscription)
    → refresh now m ≡ (ok s, m')
    → (can_run_yoma now m).0 ≡ ok (runs s.state)
unfolding can_run_yoma
can_run_lem now m m' s e = rw e refl

-- A subscription that is not a trial is as its state says: no queries at any times change the
-- manager, and the program may run exactly if the state is active, whatever the time, also after
-- `expires_at`.
pub settled_access :
    (m : Manager) (s : TrialSubscription) (qs : List Query) (now : DateTime)
    → m.subscription ≡ some s
    → is_trial s.state ≡ false
    → Timed qs
    → now.aware ≡ true
    → (ask_all m qs ≡ m) × ((can_run_yoma now (ask_all m qs)).0 ≡ ok (runs s.state))
unfolding ask_all
settled_access m s [] now has_one settled timed aware =
    (refl, can_run_lem now m m s (refresh_stays now m s aware has_one settled))
settled_access m s (q ∷ qs) now has_one settled timed aware =
    subst (λ m'. (ask_all m' qs ≡ m) × ((can_run_yoma now (ask_all m' qs)).0 ≡ ok (runs s.state)))
      (sym
        (ask-refresh m q ∙ ap (λ r. r.1) (refresh_stays (time_of q) m s timed.0 has_one settled)))
      (settled_access m s qs now has_one settled timed.1 aware)

-- A trial, under any queries at any times: the program may run exactly if the time asked and all
-- times before lie before the end of the trial. Once it has ended, an earlier time does not bring
-- it back.
pub trial_access :
    (m : Manager) (s : TrialSubscription) (qs : List Query) (now : DateTime)
    → m.subscription ≡ some s
    → IsDated s
    → s.state ≡ State.trial
    → Timed qs
    → now.aware ≡ true
    → (can_run_yoma now (ask_all m qs)).0
      ≡ ok (all (λ q. earlier (time_of q) s.expires_at) qs && earlier now s.expires_at)
unfolding ask_all
trial_access m s [] now has_one d trial timed aware =
    elim (Bool-cases (not_later s.expires_at now)) [
      | inl late ↦
          can_run_lem now m (held m (over s)) (over s)
            (refresh_ends now m s aware has_one d trial late)
          ∙ ap ok (ground (arith, late))
      | inr early ↦
          can_run_lem now m m s (refresh_going now m s aware has_one (ground (arith, early)))
          ∙ ap ok (ground (arith, early, trial))
    ]
trial_access m s (q ∷ qs) now has_one d trial timed aware =
    elim (Bool-cases (not_later s.expires_at (time_of q))) [
      | inl late ↦
          ap (λ m'. (can_run_yoma now (ask_all m' qs)).0)
            (ask-refresh m q
              ∙ ap (λ r. r.1) (refresh_ends (time_of q) m s timed.0 has_one d trial late))
          ∙ (settled_access (held m (over s)) (over s) qs now refl refl timed.1 aware).1
          ∙ ap ok (ground (arith, late))
      | inr early ↦
          ap (λ m'. (can_run_yoma now (ask_all m' qs)).0)
            (ask-refresh m q
              ∙ ap (λ r. r.1)
                  (refresh_going (time_of q) m s timed.0 has_one (ground (arith, early))))
          ∙ trial_access m s qs now has_one d trial timed.1 aware
          ∙ ap ok (ground (arith, early))
    ]

-- The license of a subscription.
abbrev license_of : String → String → ProductEdition → TrialSubscription → YomaLicense
license_of id organization_id ed s = record {
  license_id = id;
  organization_id = organization_id;
  edition = ed;
  status = license_status s.state;
  issued_at = s.started_at;
  expires_at = some s.expires_at;
  entitlements = ("yoma", is_active (license_status s.state)) ∷ [];
}

to_yoma_license_lem :
    (id : String) (now : DateTime) (m m' : Manager) (s : TrialSubscription) (ed : ProductEdition)
    → is_blank id ≡ false
    → is_blank m'.organization_id ≡ false
    → now.aware ≡ true
    → IsDated s
    → edition_of s.edition ≡ ok ed
    → refresh now m ≡ (ok s, m')
    → (to_yoma_license id now m).0 ≡ ok (license_of id m'.organization_id ed s)
unfolding to_yoma_license license_post_init
to_yoma_license_lem id now m m' s ed named org aware d known e =
    simp (aware, e, known, named, org, d.started, d.expires, d.ordered)

validate_lem :
    (l : YomaLicense) (end now : DateTime)
    → l.expires_at ≡ some end
    → now.aware ≡ true
    → (r : LicenseValidationResult) × (validate l now ≡ ok r)
      × (r.valid ≡ (is_active l.status && earlier now end))
unfolding validate is_expired
validate_lem l end now e aware = elim (Bool-cases (is_active l.status)) [
  | inr other ↦ (
    validation l false (concat "license_status:" (status_value l.status)),
    simp (aware, other),
    ground (arith, other),
  )
  | inl active ↦ elim (Bool-cases (not_later end now)) [
    | inl late ↦
        (validation l false "license_expired", simp (aware, active, e, late), ground (arith, late))
    | inr early ↦ (
      validation l true "license_valid",
      simp (aware, active, e, early),
      ground (arith, active, early),
    )
  ]
]

is_active-license_status : (s : State) → is_active (license_status s) ≡ runs s
is_active-license_status s = ground arith

ends_false :
    (s : State) (now end : DateTime)
    → not_later end now ≡ true
    → (runs s && earlier now end) ≡ false
ends_false s now end h = ground arith

trial_only : (s : State) (b : Bool) → (is_trial s && b) ≡ true → (s ≡ State.trial) × (b ≡ true)
trial_only s b h = ground arith

-- The license that a manager issues of its subscription, validated at the same time, is valid exactly
-- if the state is trial or active and the time is before the end. Its conditions are an aware time,
-- ids that are not blank, and a known edition.
pub license_access :
    (m : Manager) (s : TrialSubscription) (id : String) (ed : ProductEdition) (now : DateTime)
    → m.subscription ≡ some s
    → IsDated s
    → now.aware ≡ true
    → is_blank id ≡ false
    → is_blank m.organization_id ≡ false
    → edition_of s.edition ≡ ok ed
    → (l : YomaLicense) × (r : LicenseValidationResult) × ((to_yoma_license id now m).0 ≡ ok l)
      × (validate l now ≡ ok r)
      × (r.valid ≡ (runs s.state && earlier now s.expires_at))
license_access m s id ed now has_one d aware named org known =
    elim (Bool-cases (is_trial s.state && not_later s.expires_at now)) [
      | inl ends ↦
          let (trial, late) = trial_only s.state (not_later s.expires_at now) ends in
          let l = license_of id m.organization_id ed (over s) in
          let (r, done, valid) = validate_lem l s.expires_at now refl aware in
          (
            l,
            r,
            to_yoma_license_lem id now m (held m (over s)) (over s) ed named org aware
                (IsDated-over s d) known (refresh_ends now m s aware has_one d trial late),
            done,
            valid ∙ sym (ends_false s.state now s.expires_at late),
          )
      | inr going ↦
          let l = license_of id m.organization_id ed s in
          let (r, done, valid) = validate_lem l s.expires_at now refl aware in
          (
            l,
            r,
            to_yoma_license_lem id now m m s ed named org aware d known
                (refresh_going now m s aware has_one going),
            done,
            valid ∙ ap (λ b. b && earlier now s.expires_at) (is_active-license_status s.state),
          )
    ]
