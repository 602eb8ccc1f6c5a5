-- ===== src/Licensing/Lifetime.antt =====
-- The manager over every sequence of calls.
use yoma.Prelude.{
  ℕ, String, Bool, ◌≡◌, true, false, List, [], ◌∷◌, Option, none, some, ◌==◌, ◌&&◌, Bool-cases, inl,
  inr, refl, arith, sym, ◌∙◌, subst, eq_iff,
}
use yoma.Result.{Error, Result, ok, err, raise_unless}
use yoma.Exec.{Exec, proceed}
use yoma.Value.{DateTime}
use yoma.Licensing.Trial.{TrialSubscription, edition_of}
use yoma.Licensing.Manager.{
  Manager, new, restore, start_trial, refresh, ensure_initialized, activate_subscription,
  renew_subscription, suspend, can_run_yoma, notification, status, to_yoma_license,
}
use yoma.Licensing.Dates.{IsDated, IsManaged, some_inj, Moves-IsManaged}
use yoma.Licensing.Moves.{
  start_trial-Moves, refresh-Moves, suspend-Moves, activate-Moves, renew-Moves, ensure-Moves,
}

-- A call that only asks; each refreshes the subscription first.
pub data Query : Type 0 where
  refreshes runs notifies reports : DateTime → Query
  licenses : String → DateTime → Query

abbrev pub time_of : Query → DateTime
time_of (refreshes now) = now
time_of (runs now) = now
time_of (notifies now) = now
time_of (reports now) = now
time_of (licenses id now) = now

unfoldable pub ask : Manager → Query → Manager
ask m (refreshes now) = (refresh now m).1
ask m (runs now) = (can_run_yoma now m).1
ask m (notifies now) = (notification now m).1
ask m (reports now) = (status now m).1
ask m (licenses id now) = (to_yoma_license id now m).1

unfoldable pub ask_all : Manager → List Query → Manager
ask_all m [] = m
ask_all m (q ∷ qs) = ask_all (ask m q) qs

pub data Op : Type 0 where
  starts ensures : DateTime → Op
  activates : DateTime → ℕ → String → Op
  renews : DateTime → ℕ → Op
  suspends : Op
  asks : Query → Op

-- The manager that a call leaves, whether it returns or raises.
unfoldable pub perform : Manager → Op → Manager
perform m (starts at) = (start_trial at m).1
perform m (ensures at) = (ensure_initialized at m).1
perform m (activates at days edition) = (activate_subscription at days edition m).1
perform m (renews at days) = (renew_subscription at days m).1
perform m suspends = (suspend m).1
perform m (asks q) = ask m q

unfoldable pub perform_all : Manager → List Op → Manager
perform_all m [] = m
perform_all m (op ∷ ops) = perform_all (perform m op) ops

-- A query leaves the manager as its refresh does.
same_state {ℓ κ} :
    {A : Type ℓ} {B : Type κ} (r : Result A) (f : A → Exec Manager B) (m : Manager)
    → ((a : A) → (f a m).1 ≡ m)
    → (proceed r f m).1 ≡ m
same_state (ok a) f m h = h a
same_state (err e) f m h = refl

checked {κ} :
    {B : Type κ} (b : Bool) (e : Error) (k : Exec Manager B) (m m' : Manager)
    → (b ≡ true → (k m).1 ≡ m')
    → (b ≡ false → m ≡ m')
    → (proceed (raise_unless b e) (λ _. k) m).1 ≡ m'
checked true e k m m' h h' = h refl
checked false e k m m' h h' = h' refl

refresh_naive : (now : DateTime) (m : Manager) → now.aware ≡ false → (refresh now m).1 ≡ m
unfolding refresh
refresh_naive now m naive = rw naive

pub ask-refresh : (m : Manager) (q : Query) → ask m q ≡ (refresh (time_of q) m).1
unfolding ask can_run_yoma notification status to_yoma_license
ask-refresh m (refreshes now) = refl
ask-refresh m (runs now) = same_state (refresh now m).0 _ (refresh now m).1 λ s. refl
ask-refresh m (notifies now) = same_state (refresh now m).0 _ (refresh now m).1 λ s. refl
ask-refresh m (reports now) = same_state (refresh now m).0 _ (refresh now m).1 λ s. refl
ask-refresh m (licenses id now) =
    checked now.aware _ _ m (refresh now m).1
      (λ aware.
        same_state (refresh now m).0 _ (refresh now m).1
          λ s. same_state (edition_of s.edition) _ (refresh now m).1 λ e. refl)
      (λ naive. sym (refresh_naive now m naive))

perform-IsManaged : (m : Manager) (op : Op) → IsManaged m → IsManaged (perform m op)
unfolding perform
perform-IsManaged m (starts at) h = Moves-IsManaged m _ (start_trial-Moves at m) h
perform-IsManaged m (ensures at) h = Moves-IsManaged m _ (ensure-Moves at m h) h
perform-IsManaged m (activates at days edition) h =
    Moves-IsManaged m _ (activate-Moves at days edition m) h
perform-IsManaged m (renews at days) h = Moves-IsManaged m _ (renew-Moves at days m) h
perform-IsManaged m suspends h = Moves-IsManaged m _ (suspend-Moves m h) h
perform-IsManaged m (asks q) h =
    subst IsManaged (sym (ask-refresh m q)) (Moves-IsManaged m _ (refresh-Moves (time_of q) m h) h)

perform_all-IsManaged : (m : Manager) (ops : List Op) → IsManaged m → IsManaged (perform_all m ops)
unfolding perform_all
perform_all-IsManaged m [] h = h
perform_all-IsManaged m (op ∷ ops) h =
    perform_all-IsManaged (perform m op) ops (perform-IsManaged m op h)

-- What a subscription that `load` returned satisfies.
abbrev pub IsLoaded : Option TrialSubscription → Type 0
IsLoaded none = Unit
IsLoaded (some s) = IsDated s

ok_inj : {a b : Manager} → ok a ≡ ok b → a ≡ b
ok_inj h = cc

and_both : (a b : Bool) → (a && b) ≡ true → (a ≡ true) × (b ≡ true)
and_both a b h = ground arith

none-IsManaged : (m : Manager) → m.subscription ≡ none → IsManaged m
none-IsManaged m e = record {
  dated = λ s h. absurd (none_some (sym e ∙ h));
  organization = λ s h. absurd (none_some (sym e ∙ h));
  deployment = λ s h. absurd (none_some (sym e ∙ h));
  saved = λ s h p. absurd (none_some (sym e ∙ h));
}
  where
    none_some : {s : TrialSubscription} → none ≡ some s → ⊥
    none_some h = cc

-- The manager that the constructor makes of what it restores.
abbrev made_of :
    String
    → String
    → DateTime
    → Bool
    → Option TrialSubscription
    → Option TrialSubscription
    → Manager
made_of organization_id deployment_id now persistent loaded restored = record {
  organization_id = organization_id;
  deployment_id = deployment_id;
  now = now;
  persistent = persistent;
  saved = loaded;
  subscription = restored;
}

restored-IsManaged :
    (o d : String) (now : DateTime) (persistent : Bool) (loaded : Option TrialSubscription)
    → IsLoaded loaded
    → IsManaged (made_of o d now persistent loaded (restore o d loaded))
restored-IsManaged o d now persistent none dated = none-IsManaged _ refl
restored-IsManaged o d now persistent (some s) dated =
    elim (Bool-cases (s.organization_id == o && s.deployment_id == d)) [
      | inr other ↦ none-IsManaged _ (rw other)
      | inl same ↦
          let (org, dep) = and_both _ _ same in
          subst (λ r. IsManaged (made_of o d now persistent (some s) r)) (own same)
            (record {
              dated = λ t e. subst IsDated (some_inj e) dated;
              organization = λ t e.
                  subst (λ x. x.organization_id ≡ o) (some_inj e)
                    ((eq_iff s.organization_id o).0 org);
              deployment = λ t e.
                  subst (λ x. x.deployment_id ≡ d) (some_inj e) ((eq_iff s.deployment_id d).0 dep);
              saved = λ t e p. e;
            })
    ]
  where
    own : (s.organization_id == o && s.deployment_id == d) ≡ true → some s ≡ restore o d (some s)
    own same = rw same refl

new-IsManaged :
    (o d : String) (now : DateTime) (persistent : Bool) (loaded : Option TrialSubscription)
    (m : Manager)
    → IsLoaded loaded
    → new o d now persistent loaded ≡ ok m
    → IsManaged m
unfolding new
new-IsManaged o d now persistent loaded m dated made = elim (Bool-cases now.aware) [
  | inr naive ↦ absurd (refused (rw naive at made))
  | inl aware ↦
      subst IsManaged (ok_inj (made_lem aware ∙ made))
        (restored-IsManaged o d now persistent loaded dated)
]
  where
    refused : {e : Error} → err e ≡ ok m → ⊥
    refused h = cc

    made_lem :
        now.aware ≡ true
        → ok (made_of o d now persistent loaded (restore o d loaded))
          ≡ new o d now persistent loaded
    made_lem aware = rw aware refl

-- From a new manager, whose persistence loaded nothing or a dated subscription, every sequence of
-- calls leaves it without a subscription, or with one that is dated, carries the ids of the manager,
-- and was saved if there is a persistence.
pub IsManaged-throughout :
    (o d : String) (now : DateTime) (persistent : Bool) (loaded : Option TrialSubscription)
    (m : Manager) (ops : List Op)
    → IsLoaded loaded
    → new o d now persistent loaded ≡ ok m
    → IsManaged (perform_all m ops)
IsManaged-throughout o d now persistent loaded m ops dated made =
    perform_all-IsManaged m ops (new-IsManaged o d now persistent loaded m dated made)
