-- ===== src/Events/Publishing.antt =====
-- The direct side of `NatsEventBus` in app/core/nats_bus.py: an event is published at once, given to
-- the local handlers, and written to the event store in a session of its own.
use fast_kit.Kit.{
  Text, not, Option, none, some, List, [], ◌∷◌, if◌then◌else◌, Method, pure, raise, modify, ◌>>=◌,
  ◌>>◌, Result, ok, err,
}
use fast_kit.Events.Values.{Wire, Event, Runtime}
use fast_kit.Events.Serializer.{
  SerializationError, SerializedEvent, to_json, serialize, deserialize, class_path, rsplit_dot,
}
use fast_kit.Events.Subjects.{subject_for_event_type}
use fast_kit.Events.Database.{
  Environment, World, Failure, raised, not_connected, publish, in_session, commit,
}
use fast_kit.Events.Outbox.{add_event_store}
use fast_kit.Events.Relay.{aggregate_id_from_event}
use fast_kit.Events.Consumer.{Handler, run_handlers}

-- The aggregate id of the event that its serialized form gives.
unfoldable pub event_aggregate_id : Runtime → Result SerializationError Event → Option Text
unfolding aggregate_id_from_event
event_aggregate_id runtime (ok event) = aggregate_id_from_event runtime event
event_aggregate_id runtime (err _) = none

module _ {B : Type 0} (env : Environment) where
  -- An exception of `js.publish` goes on to the caller.
  unfoldable pub or_goes_on : Option Text → Method (World B) Failure (Unit {0})
  or_goes_on none = pure tt
  or_goes_on (some _) = raise (raised "NatsError")

  unfoldable pub publish_raw : Text → Wire → Method (World B) Failure (Unit {0})
  unfolding publish or_goes_on
  publish_raw subject payload w =
      (if not w.connected
          then raise not_connected
          else publish env (record { subject = subject; wire = payload; headers = [] })
            >>= or_goes_on)
        w

  -- `_publish_to_nats`, from the serialized form on.
  unfoldable pub publish_serialized :
      Event → Result SerializationError SerializedEvent → Method (World B) Failure (Unit {0})
  unfolding publish_raw to_json
  publish_serialized event (err _) = pure tt
  publish_serialized event (ok serialized) =
      publish env (record {
        subject = subject_for_event_type event.type;
        wire = to_json serialized;
        headers = [];
      })
      >>= or_goes_on

  unfoldable pub publish_to_nats : Event → Method (World B) Failure (Unit {0})
  unfolding publish_serialized serialize
  publish_to_nats event w =
      (if not w.connected then raise not_connected else publish_serialized event (serialize event))
        w

  -- Each local handler is called; its exceptions are logged and dropped.
  unfoldable pub invoke_local_handlers : List (Handler B) → Event → World B → World B
  invoke_local_handlers [] event w = w
  invoke_local_handlers (handler ∷ handlers) event w =
      invoke_local_handlers handlers event (handler event w).1

  module _ (runtime : Runtime) where
    -- `_record_event_store`, from the serialized form on: what goes wrong is logged and dropped.
    unfoldable pub store_serialized :
        Event → Result SerializationError SerializedEvent → World B → World B
    unfolding add_event_store in_session commit event_aggregate_id deserialize
    store_serialized event (err _) w = w
    store_serialized event (ok serialized) w =
        (in_session env
          (add_event_store env (rsplit_dot (class_path event.type)).1 (class_path event.type)
              event.attributes (event_aggregate_id runtime (deserialize runtime serialized)) none
            >> commit env)
          w).1

    unfoldable pub record_event_store : Event → World B → World B
    unfolding store_serialized serialize
    record_event_store event w = store_serialized event (serialize event) w

    -- `publish`; `handlers` are those of the event's type.
    unfoldable pub publish_event : List (Handler B) → Event → Method (World B) Failure (Unit {0})
    unfolding publish_to_nats invoke_local_handlers record_event_store
    publish_event handlers event =
        publish_to_nats event
        >> modify (λ w. record_event_store event (invoke_local_handlers handlers event w))

-- `InMemoryEventBus` of app/core/event_bus.py: the handlers in their order; an exception goes on to
-- the caller.
module _ {B : Type 0} where
  unfoldable pub publish_in_memory :
      List (Handler B) → Event → World B → Result Text (Unit {0}) × World B
  unfolding run_handlers
  publish_in_memory handlers event w = run_handlers handlers event w
