-- ===== src/Events/Bus.antt =====
-- `OrganizationEventBus`. A handler acts on all there is, the bus and the world, and may raise: it is
-- any `Exec` of the two, so it may subscribe and unsubscribe handlers while an event is published.
use yoma.Prelude.{
  ℕ, suc, ◌+◌, String, Bool, List, [], ◌∷◌, ◌++◌, Option, none, some, ◌==◌, any, length,
  if◌then◌else◌,
}
use yoma.Result.{Error, Result, ok, err}
use yoma.Exec.{Exec, return, lift, modify, ◌>>=◌}
use yoma.Events.Model.{OrganizationChangeEvent, EventSubscription, matches, normalize_filter}

pub record Bus (W : Type 0) : Type 0 where
  pub subscriptions : List EventSubscription
  pub world : W

-- What the handlers do, each by its name.
abbrev pub Handlers : Type 0 → Type 0
Handlers W = String → OrganizationChangeEvent → Exec (Bus W) (Unit {0})

abbrev pub is_handled_by : String → EventSubscription → Bool
is_handled_by handler s = s.handler == handler

-- `del self._subscriptions[index]` for the first that has the handler.
unfoldable pub drop_first : String → List EventSubscription → List EventSubscription
drop_first handler [] = []
drop_first handler (s ∷ rest) =
    let others = drop_first handler rest in if s.handler == handler then rest else s ∷ others

-- The counters of the loop after one handler.
abbrev pub counted : Result (Unit {0}) → ℕ → Option Error → ℕ × Option Error
counted (ok u) deliveries first_error = (suc deliveries, first_error)
counted (err e) deliveries none = (deliveries, some e)
counted (err e) deliveries (some first) = (deliveries, some first)

-- What `publish` does behind its loop.
abbrev pub conclude : ℕ → Option Error → Result ℕ
conclude deliveries none = ok deliveries
conclude deliveries (some e) = err e

module _ {W : Type 0} where
  unfoldable pub subscribe :
      String → Option (List String) → Option (List String) → Exec (Bus W) (Unit {0})
  subscribe handler event_types entity_types = do
    events ← lift (normalize_filter "event_types" event_types)
    entities ← lift (normalize_filter "entity_types" entity_types)
    modify (λ b. if any (is_handled_by handler) b.subscriptions then b else record b {
      subscriptions =
          b.subscriptions
          ++ record { handler = handler; event_types = events; entity_types = entities } ∷ [];
    })

  unfoldable pub unsubscribe : String → Exec (Bus W) Bool
  unsubscribe handler b = (
    ok (any (is_handled_by handler) b.subscriptions),
    record b { subscriptions = drop_first handler b.subscriptions },
  )

  abbrev pub subscriber_count : Bus W → ℕ
  subscriber_count b = length b.subscriptions

  module _ (run : Handlers W) where
    -- The loop over the subscriptions as they stood when the event was published.
    unfoldable pub deliver :
        OrganizationChangeEvent → ℕ → Option Error → List EventSubscription → Exec (Bus W) ℕ
    deliver event deliveries first_error [] b = (conclude deliveries first_error, b)
    deliver event deliveries first_error (s ∷ rest) b =
        if matches s event
        then (let (r, b') = run s.handler event b in
            let (n, first) = counted r deliveries first_error in deliver event n first rest b')
        else deliver event deliveries first_error rest b

    unfoldable pub publish : OrganizationChangeEvent → Exec (Bus W) ℕ
    publish event b = deliver event 0 none b.subscriptions b

    unfoldable pub publish_from : ℕ → List OrganizationChangeEvent → Exec (Bus W) ℕ
    publish_from deliveries [] = return deliveries
    publish_from deliveries (event ∷ events) = do
      n ← publish event
      publish_from (deliveries + n) events

    unfoldable pub publish_many : List OrganizationChangeEvent → Exec (Bus W) ℕ
    publish_many events = publish_from 0 events
