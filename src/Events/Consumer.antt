-- ===== src/Events/Consumer.antt =====
-- The consumer side of `NatsEventBus` in app/core/nats_bus.py: how one delivered message is handled,
-- answered, and routed to the dead-letter subject. Acknowledging a message does not raise here.
pub mod Answers
pub mod Redelivery
use fast_kit.Kit.{
  Text, ℕ, ◌-◌, String, not, Option, none, some, List, [], ◌∷◌, if◌then◌else◌, ltb, or_else, Result,
  ok, err, decimal,
}
use fast_kit.Events.Settings.{nats_consumer_max_deliver}
use fast_kit.Events.Values.{Wire, Event, Runtime}
use fast_kit.Events.Serializer.{SerializationError, from_json, deserialize}
use fast_kit.Events.Subjects.{dlq_subject_for_subject}
use fast_kit.Events.Database.{Message, Environment, World, Failure, publish}

-- `nats.aio.msg.Msg`. The metadata may be missing, and its delivery count may be `None`.
pub record Msg : Type 0 where
  pub subject : Text
  pub wire : Wire
  pub headers : List (String × Text)
  pub metadata : Option (Option ℕ)

-- What the consumer tells JetStream about a message: `ack()`, or `nak()` with a delay or without.
pub data Answer : Type 0 where
  ack : Answer
  nak : Option ℕ → Answer

-- A registered handler: it does what it does, and raises a text or returns.
abbrev pub Handler : Type 0 → Type 0
Handler B = Event → World B → Result Text (Unit {0}) × World B

abbrev pub dlq_header_error : String
dlq_header_error = "Nats-Last-Error"

abbrev pub dlq_header_origin_subject : String
dlq_header_origin_subject = "X-Origin-Subject"

abbrev pub dlq_header_delivery_count : String
dlq_header_delivery_count = "X-Delivery-Count"

unfoldable pub num_delivered : Msg → ℕ → ℕ
num_delivered msg fallback = elim msg.metadata [ none ↦ fallback | some count ↦ or_else count 0 ]

-- The copy that goes to the dead-letter subject.
unfoldable pub dead_letter_copy : Msg → Text → ℕ → Message
dead_letter_copy msg error_message attempts = record {
  subject = dlq_subject_for_subject msg.subject;
  wire = msg.wire;
  headers =
      (dlq_header_error, error_message)
      ∷ (dlq_header_origin_subject, msg.subject)
      ∷ (dlq_header_delivery_count, decimal attempts)
      ∷ [];
}

module _ {B : Type 0} where
  -- The handlers in their order, up to the first that raises.
  unfoldable pub run_handlers :
      List (Handler B) → Event → World B → Result Text (Unit {0}) × World B
  run_handlers [] event w = (ok tt, w)
  run_handlers (handler ∷ handlers) event w =
      let (r, w') = handler event w in
      elim r [ ok _ ↦ run_handlers handlers event w' | err e ↦ (err e, w') ]

-- `_dead_letter`: a copy to the dead-letter subject, and only then the acknowledgement.
module _ {B : Type 0} (env : Environment) where
  unfoldable pub answer_copy : Result Failure (Option Text) × World B → Answer × World B
  answer_copy (ok none, w) = (ack, w)
  answer_copy (ok (some _), w) = (nak none, w)
  answer_copy (err _, w) = (nak none, w)

  unfoldable pub dead_letter : Msg → Text → ℕ → World B → Answer × World B
  unfolding answer_copy
  dead_letter msg error_message attempts w =
      if not w.connected
      then (nak none, w)
      else answer_copy (publish env (dead_letter_copy msg error_message attempts) w)

  unfoldable pub route_poison_message : Msg → Text → World B → Answer × World B
  unfolding dead_letter num_delivered
  route_poison_message msg error_message w = dead_letter msg error_message (num_delivered msg 1) w

  unfoldable pub handle_delivery_failure : Msg → Text → World B → Answer × World B
  unfolding dead_letter num_delivered
  handle_delivery_failure msg error_message w =
      let delivered = num_delivered msg nats_consumer_max_deliver in
      if ltb delivered nats_consumer_max_deliver
      then (nak none, w)
      else dead_letter msg error_message delivered w

  -- The end of the block around the handlers.
  unfoldable pub after_handlers : Msg → Result Text (Unit {0}) × World B → Answer × World B
  after_handlers msg (ok _, w) = (ack, w)
  after_handlers msg (err e, w) = handle_delivery_failure msg e w

-- The decoding of a message: `from_json`, then `deserialize`.
unfoldable pub decode : Runtime → Wire → Result SerializationError Event
unfolding from_json deserialize
decode runtime wire = elim (from_json wire) [
  | err e ↦ err e
  | ok serialized ↦ deserialize runtime serialized
]

module _ {B : Type 0} (env : Environment) (runtime : Runtime)
    (explain : SerializationError → Text) where
  -- What follows the block around the decoding. `explain` is the text of the exception,
  -- `f"{type(exc).__name__}: {exc}"`.
  unfoldable pub after_decoding :
      List (Handler B) → Msg → Result SerializationError Event → World B → Answer × World B
  unfolding route_poison_message after_handlers handle_delivery_failure run_handlers
  after_decoding handlers msg (err e) w = route_poison_message env msg (explain e) w
  after_decoding handlers msg (ok event) w = after_handlers env msg (run_handlers handlers event w)

  unfoldable pub handle_message : List (Handler B) → Msg → World B → Answer × World B
  unfolding decode after_decoding
  handle_message handlers msg w = after_decoding handlers msg (decode runtime msg.wire) w
