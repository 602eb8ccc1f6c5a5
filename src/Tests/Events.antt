-- ===== src/Tests/Events.antt =====
-- An example for the publishing of events.
use yoma.Prelude.{String, ◌≡◌, [], ◌∷◌, none, some, if◌then◌else◌, ◌==◌, List, ◌++◌}
use yoma.Result.{value_error, ok, err}
use yoma.Events.Model.{OrganizationChangeEvent, EventSubscription}
use yoma.Events.Bus.{Bus, Handlers, publish, unsubscribe}
use yoma.Events.Delivery.{call_each, concerned, verdict, publish-eq-verdict}

abbrev login : OrganizationChangeEvent
login = record {
  event_type = "login";
  entity_type = "user";
  entity_id = "u1";
  previous_state = none;
  current_state = none;
  metadata = [];
  timestamp = "noon";
}

-- The handler "once" leaves the bus, "broken" raises, and the others write their names.
abbrev run : Handlers (List String)
run handler event b =
    if handler == "broken"
    then (err (value_error "broken"), b)
    else if handler == "once"
    then (ok tt, (unsubscribe "once" b).1)
    else (ok tt, record b { world = b.world ++ handler ∷ [] })

abbrev on_all : String → EventSubscription
on_all handler = record { handler = handler; event_types = none; entity_types = none }

abbrev bus : Bus (List String)
bus = record {
  subscriptions =
      on_all "once"
      ∷ on_all "broken"
      ∷ record (on_all "deaf") { event_types = some ("logout" ∷ []) }
      ∷ on_all "log"
      ∷ [];
  world = [];
}

publish-eq-verdict_example : publish run login bus ≡ (
  verdict (call_each run login (concerned login bus.subscriptions) bus).0,
  (call_each run login (concerned login bus.subscriptions) bus).1,
)
publish-eq-verdict_example = publish-eq-verdict run login bus
