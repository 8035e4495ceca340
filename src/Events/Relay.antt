-- ===== src/Events/Relay.antt =====
-- The outbox side of `NatsEventBus` in app/core/nats_bus.py: events are staged in the transaction of
-- the use case, and relayed to the broker after it.
pub mod Records
pub mod Accounted
pub mod Durable
pub mod Staging
pub mod Requests
pub mod Delivered
use fast_kit.Kit.{
  Text, String, not, Option, none, some, List, [], ◌∷◌, if◌then◌else◌, is_some, Method, pure, gets,
  ◌>>◌, for_each, Result, ok, err, ◌>>=◌,
}
use fast_kit.Events.Values.{Value, str, obj, Fields, get, Event, Runtime}
use fast_kit.Events.Serializer.{
  SerializationError, SerializedEvent, to_json, serialize, deserialize, class_path, rsplit_dot,
}
use fast_kit.Events.Subjects.{subject_for_event_type}
use fast_kit.Events.Database.{OutboxRow, Message, Environment, World, Failure, publish}
use fast_kit.Events.Outbox.{
  add_outbox, get_pending_outbox, mark_outbox_published, increment_outbox_attempts, add_event_store,
}

-- `payload.get(key)` that is not `None`
abbrev present : Option Value → Option Value
present none = none
present (some Value.null) = none
present (some v) = some v

-- The loop over the keys of `_aggregate_id_from_event`.
unfoldable pub first_present : List String → Fields → Option Value
unfolding get
first_present [] payload = none
first_present (key ∷ keys) payload =
    let rest = first_present keys payload in
    if is_some (present (get key payload)) then present (get key payload) else rest

abbrev aggregate_keys : List String
aggregate_keys = "order_id" ∷ "job_id" ∷ "user_id" ∷ "aggregate_id" ∷ "id" ∷ []

unfoldable pub aggregate_id_from_event : Runtime → Event → Option Text
unfolding first_present
aggregate_id_from_event runtime event = elim (first_present aggregate_keys event.attributes) [
  | none ↦ none
  | some value ↦ some (runtime.str_of value)
]

-- The serialized form of a row, and the message that the relay publishes for it.
abbrev pub serialized_row : OutboxRow → SerializedEvent
serialized_row row = record { event_class = str row.event_class_path; payload = obj row.payload }

unfoldable pub message_of : OutboxRow → Message
unfolding to_json
message_of row = record { subject = row.subject; wire = to_json (serialized_row row); headers = [] }

-- The aggregate id for the event store: none if the event cannot be built again.
row_aggregate_id : Runtime → OutboxRow → Option Text
unfolding deserialize aggregate_id_from_event
row_aggregate_id runtime row = elim (deserialize runtime (serialized_row row)) [
  | ok event ↦ aggregate_id_from_event runtime event
  | err _ ↦ none
]

module _ {B : Type 0} (env : Environment) (runtime : Runtime) where
  -- What follows the call of `publish` in `_relay_outbox_row`.
  after_publish : OutboxRow → Option Text → Method (World B) Failure (Unit {0})
  unfolding row_aggregate_id
  after_publish row (some error_message) = increment_outbox_attempts env row.id error_message
  after_publish row none = do
    mark_outbox_published env row.id
    add_event_store env (rsplit_dot row.event_class_path).1 row.event_class_path row.payload
        (row_aggregate_id runtime row) none

  unfoldable pub relay_outbox_row : OutboxRow → Method (World B) Failure (Unit {0})
  unfolding after_publish
  relay_outbox_row row = do
    connected ← gets (λ w. w.connected)
    if not connected
        then pure tt
        else do outcome ← publish env (message_of row); after_publish row outcome

  unfoldable pub relay_pending_outbox : Method (World B) Failure (Unit {0})
  unfolding relay_outbox_row
  relay_pending_outbox = do
    connected ← gets (λ w. w.connected)
    if not connected
        then pure tt
        else do pending ← get_pending_outbox env 100; for_each relay_outbox_row pending

  -- What follows the call of `serialize` in `publish_durable`. An event that cannot be serialized is
  -- logged and dropped; the form of another holds the class path and the fields as they are here.
  stage_serialized :
      Event → Result SerializationError SerializedEvent → Method (World B) Failure (Unit {0})
  stage_serialized event (err _) = pure tt
  stage_serialized event (ok serialized) =
      add_outbox env (class_path event.type) event.attributes (subject_for_event_type event.type)
      >> pure tt

  unfoldable pub publish_durable : Event → Method (World B) Failure (Unit {0})
  unfolding serialize stage_serialized
  publish_durable event = stage_serialized event (serialize event)
