-- ===== src/Licensing/Activated.antt =====
-- Which licenses a runtime can be active for, over every sequence of calls.
use yoma.Prelude.{
  String, ◌≡◌, refl, true, false, List, [], ◌∷◌, Option, none, some, All, inl, inr, sym, ◌∙◌,
  Bool-cases, subst,
}
use yoma.Result.{ok, Result-cases}
use yoma.Value.{DateTime}
use yoma.Licensing.License.{YomaLicense, LicenseValidationResult, validate}
use yoma.Licensing.Activation.{
  is_active, Runtime, initial, activated, is_current, is_naive, activate_valid, activate,
  deactivate_ids, deactivate, reset,
}

pub data Op : Type 0 where
  activates : YomaLicense → DateTime → Op
  deactivates : Option DateTime → Op
  resets : Op

-- The licenses and times that a call gives to `activate` are in `G`.
abbrev pub Given : (YomaLicense → DateTime → Type 0) → Op → Type 0
Given G (activates l now) = G l now
Given G (deactivates now) = Unit
Given G resets = Unit

-- The runtime that a call leaves, whether it returns or raises.
unfoldable pub perform : Runtime → Op → Runtime
perform s (activates l now) = (activate l now s).1
perform s (deactivates now) = (deactivate now s).1
perform s resets = (reset s).1

unfoldable pub perform_all : Runtime → List Op → Runtime
unfolding perform
perform_all s [] = s
perform_all s (op ∷ ops) = perform_all (perform s op) ops

-- An active runtime holds a license of `G`, valid at the time at which it was activated.
pub record IsGranted (G : YomaLicense → DateTime → Type 0) (s : Runtime) : Type 0 where
  pub license : YomaLicense
  pub now : DateTime
  pub verdict : LicenseValidationResult
  pub given : G license now
  pub validated : validate license now ≡ ok verdict
  pub valid : verdict.valid ≡ true
  pub state : s ≡ activated license now

abbrev pub IsCovered : (YomaLicense → DateTime → Type 0) → Runtime → Type 0
IsCovered G s = is_active s.status ≡ true → IsGranted G s

module _ (G : YomaLicense → DateTime → Type 0) (s : Runtime) (h : IsCovered G s) where
  same-IsCovered : (t : Runtime) → t ≡ s → IsCovered G t
  same-IsCovered t e = subst (IsCovered G) (sym e) h

  idle-IsCovered : (t : Runtime) → is_active t.status ≡ false → IsCovered G t
  idle-IsCovered t idle h = absurd (differ (sym h ∙ idle))
    where
      differ : true ≡ false → ⊥
      differ e = cc

  activate-IsCovered :
      (l : YomaLicense) (now : DateTime) → G l now → IsCovered G (activate l now s).1
  unfolding activate activate_valid
  activate-IsCovered l now g = elim (Bool-cases now.aware) [
    | inr naive ↦ same-IsCovered _ (simp naive)
    | inl aware ↦ elim (Result-cases (validate l now)) [
      | inl (e, stops) ↦ same-IsCovered _ (simp (aware, stops))
      | inr (v, validated) ↦ elim (Bool-cases v.valid) [
        | inr refused ↦ same-IsCovered _ (simp (aware, validated, refused))
        | inl valid ↦ elim (Bool-cases (is_current l s)) [
          | inl current ↦ same-IsCovered _ (simp (aware, validated, valid, current))
          | inr other ↦ λ on. record {
            license = l;
            now = now;
            verdict = v;
            given = g;
            validated = validated;
            valid = valid;
            state = simp (aware, validated, valid, other);
          }
        ]
      ]
    ]
  ]

  ids-IsCovered : (a b : Option String) → IsCovered G (deactivate_ids a b s).1
  ids-IsCovered none b = h
  ids-IsCovered (some a) none = h
  ids-IsCovered (some a) (some b) = idle-IsCovered _ refl

  deactivate-IsCovered : (now : Option DateTime) → IsCovered G (deactivate now s).1
  unfolding deactivate
  deactivate-IsCovered now = elim (Bool-cases (is_naive now)) [
    | inl naive ↦ same-IsCovered _ (simp naive)
    | inr fine ↦ elim (Bool-cases (is_active s.status)) [
      | inr off ↦ same-IsCovered _ (simp (fine, off))
      | inl on ↦
          subst (IsCovered G) (sym (asks fine on)) (ids-IsCovered s.license_id s.organization_id)
    ]
  ]
    where
      asks :
          is_naive now ≡ false
          → is_active s.status ≡ true
          → (deactivate now s).1 ≡ (deactivate_ids s.license_id s.organization_id s).1
      asks fine on = simp (fine, on)

module _ (G : YomaLicense → DateTime → Type 0) where
  perform-IsCovered :
      (s : Runtime) (op : Op) → Given G op → IsCovered G s → IsCovered G (perform s op)
  unfolding perform reset
  perform-IsCovered s (activates l now) g h = activate-IsCovered G s h l now g
  perform-IsCovered s (deactivates now) g h = deactivate-IsCovered G s h now
  perform-IsCovered s resets g h = idle-IsCovered G s h initial refl

  perform_all-IsCovered :
      (s : Runtime) (ops : List Op)
      → All (Given G) ops
      → IsCovered G s
      → IsCovered G (perform_all s ops)
  unfolding perform_all
  perform_all-IsCovered s [] g h = h
  perform_all-IsCovered s (op ∷ ops) g h =
      perform_all-IsCovered (perform s op) ops g.1 (perform-IsCovered s op g.0 h)

  -- Let `G` hold the licenses and times that the calls give to `activate`. If the runtime is active
  -- after any calls of `activate`, `deactivate` and `reset` on a new one, then it holds exactly the
  -- ids and the time of one of them, and that license was valid at that time.
  pub active_was_validated :
      (ops : List Op)
      → All (Given G) ops
      → is_active (perform_all initial ops).status ≡ true
      → IsGranted G (perform_all initial ops)
  active_was_validated ops g on =
      perform_all-IsCovered initial ops g
        (idle-IsCovered G initial (λ e. absurd (differ e)) initial refl) on
    where
      differ : false ≡ true → ⊥
      differ e = cc
