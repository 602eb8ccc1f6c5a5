-- ===== src/Events/Model.antt =====
-- `OrganizationChangeEvent` with the checks of its constructor, the store of events, and
-- `EventSubscription` with its filters.
use yoma.Prelude.{
  ℕ, String, Bool, true, List, [], ◌∷◌, ◌++◌, map, Option, none, some, ◌==◌, ◌&&◌, ◌||◌, is_empty,
  is_blank, is_nil, strip, any, keep, length, dedupe, contains, concat,
}
use yoma.Result.{Result, ok, value_error, raise_if, ◌>>◌}
use yoma.Exec.{Exec, modify}
use yoma.Value.{Mapping}

pub record OrganizationChangeEvent : Type 0 where
  pub event_type : String
  pub entity_type : String
  pub entity_id : String
  pub previous_state : Option Mapping
  pub current_state : Option Mapping
  pub metadata : Mapping
  pub timestamp : String

unfoldable pub event_post_init : OrganizationChangeEvent → Result OrganizationChangeEvent
event_post_init e = do
  raise_if (is_blank e.event_type) (value_error "event_type is required")
  raise_if (is_blank e.entity_type) (value_error "entity_type is required")
  raise_if (is_blank e.entity_id) (value_error "entity_id is required")
  raise_if (is_blank e.timestamp) (value_error "timestamp is required")
  ok e

-- `OrganizationChangeEventStore`: its state is the list of events.
abbrev pub Store : Type 0
Store = List OrganizationChangeEvent

unfoldable pub add : OrganizationChangeEvent → Exec Store (Unit {0})
add e = modify (λ events. events ++ e ∷ [])

abbrev pub count : Store → ℕ
count events = length events

unfoldable pub by_type : Store → String → Result (List OrganizationChangeEvent)
by_type events event_type = do
  raise_if (is_empty (strip event_type)) (value_error "event_type is required")
  ok (keep (λ (e : OrganizationChangeEvent). e.event_type == strip event_type) events)

abbrev pub is_of : String → String → OrganizationChangeEvent → Bool
is_of entity_type entity_id e = e.entity_type == entity_type && e.entity_id == entity_id

unfoldable pub by_entity : Store → String → String → Result (List OrganizationChangeEvent)
by_entity events entity_type entity_id = do
  raise_if (is_empty (strip entity_type)) (value_error "entity_type is required")
  raise_if (is_empty (strip entity_id)) (value_error "entity_id is required")
  ok (keep (is_of (strip entity_type) (strip entity_id)) events)

-- A handler is named by what `==` tells of it.
pub record EventSubscription : Type 0 where
  pub handler : String
  pub event_types : Option (List String)
  pub entity_types : Option (List String)

-- `filter is None or value in filter`
abbrev pub passes : Option (List String) → String → Bool
passes none value = true
passes (some names) value = contains names value

unfoldable pub matches : EventSubscription → OrganizationChangeEvent → Bool
matches s e = passes s.event_types e.event_type && passes s.entity_types e.entity_type

-- `_normalize_filter`, for strings; a frozen set is a list without repetitions.
unfoldable pub normalize_filter : String → Option (List String) → Result (Option (List String))
normalize_filter name none = ok none
normalize_filter name (some values) = do
  let normalized = dedupe (map strip values)
  raise_if (is_nil normalized || any is_empty normalized)
      (value_error (concat name " cannot be empty"))
  ok (some normalized)
