-- ===== src/Events/Delivery.antt =====
-- What publishing an event comes to: a call of each matching handler, and one verdict on them all.
use yoma.Prelude.{
  ℕ, suc, ◌+◌, String, ◌≡◌, refl, List, [], ◌∷◌, map, Option, none, some, keep, inl, inr, arith, ap,
  ◌∙◌, Bool-cases,
}
use yoma.Result.{Error, Result, ok, err}
use yoma.Events.Model.{OrganizationChangeEvent, EventSubscription, matches}
use yoma.Events.Bus.{Bus, Handlers, counted, conclude, deliver, publish}

-- The handlers that an event concerns, in the order of their subscription.
abbrev pub concerned : OrganizationChangeEvent → List EventSubscription → List String
concerned event subscriptions =
    map (λ (s : EventSubscription). s.handler)
      (keep (λ (s : EventSubscription). matches s event) subscriptions)

-- How many calls returned, and the first exception.
abbrev pub returned : List (Result (Unit {0})) → ℕ
returned [] = 0
returned (ok u ∷ outcomes) = suc (returned outcomes)
returned (err e ∷ outcomes) = returned outcomes

abbrev pub first_raised : List (Result (Unit {0})) → Option Error
first_raised [] = none
first_raised (ok u ∷ outcomes) = first_raised outcomes
first_raised (err e ∷ outcomes) = some e

abbrev pub verdict : List (Result (Unit {0})) → Result ℕ
verdict outcomes = elim (first_raised outcomes) [ none ↦ ok (returned outcomes) | some e ↦ err e ]

abbrev earlier_or : Option Error → Option Error → Option Error
earlier_or none later = later
earlier_or (some e) later = some e

conclude-counted :
    (r : Result (Unit {0})) (n : ℕ) (first : Option Error) (outcomes : List (Result (Unit {0})))
    → conclude
        ((counted r n first).0 + returned outcomes)
        (earlier_or (counted r n first).1 (first_raised outcomes))
      ≡ conclude (n + returned (r ∷ outcomes)) (earlier_or first (first_raised (r ∷ outcomes)))
conclude-counted (ok u) n first outcomes =
    ap (λ k. conclude k (earlier_or first (first_raised outcomes))) (omega arith)
conclude-counted (err e) n none outcomes = refl
conclude-counted (err e) n (some x) outcomes = refl

verdict_lem :
    (outcomes : List (Result (Unit {0})))
    → conclude (0 + returned outcomes) (earlier_or none (first_raised outcomes)) ≡ verdict outcomes
verdict_lem outcomes = ap (λ k. conclude k (first_raised outcomes)) (omega arith)

module _ {W : Type 0} (run : Handlers W) where
  -- The handlers one after another, each on what the one before left.
  abbrev pub call_each :
      OrganizationChangeEvent → List String → Bus W → List (Result (Unit {0})) × Bus W
  call_each event [] b = ([], b)
  call_each event (h ∷ handlers) b =
      let (r, b') = run h event b in
      let (outcomes, last) = call_each event handlers b' in (r ∷ outcomes, last)

  deliver-eq :
      (event : OrganizationChangeEvent) (subscriptions : List EventSubscription) (n : ℕ)
      (first : Option Error) (b : Bus W)
      → deliver run event n first subscriptions b ≡ (
        conclude
            (n + returned (call_each event (concerned event subscriptions) b).0)
            (earlier_or first (first_raised (call_each event (concerned event subscriptions) b).0)),
        (call_each event (concerned event subscriptions) b).1,
      )
  unfolding deliver
  deliver-eq event [] n none b = ap (λ k. (ok k, b)) (omega arith)
  deliver-eq event [] n (some e) b = refl
  deliver-eq event (s ∷ rest) n first b = elim (Bool-cases (matches s event)) [
    | inr other ↦ rw other (deliver-eq event rest n first b)
    | inl concerns ↦ rw concerns (
        deliver-eq event rest (counted (run s.handler event b).0 n first).0
          (counted (run s.handler event b).0 n first).1 (run s.handler event b).1
        ∙ ap (λ v. (v, (call_each event (concerned event rest) (run s.handler event b).1).1))
            (conclude-counted (run s.handler event b).0 n first
              (call_each event (concerned event rest) (run s.handler event b).1).0))
  ]

  -- `publish` calls the handlers of the subscriptions that match the event, as they stood when it was
  -- published, each in its turn on what the ones before left, also behind one that raised; then it
  -- returns the number of calls that returned, or raises the first exception.
  pub publish-eq-verdict :
      (event : OrganizationChangeEvent) (b : Bus W)
      → publish run event b ≡ (
        verdict (call_each event (concerned event b.subscriptions) b).0,
        (call_each event (concerned event b.subscriptions) b).1,
      )
  unfolding publish
  publish-eq-verdict event b =
      deliver-eq event b.subscriptions 0 none b
      ∙ ap (λ v. (v, (call_each event (concerned event b.subscriptions) b).1))
          (verdict_lem (call_each event (concerned event b.subscriptions) b).0)
