-- ===== src/Events/DeadLetters.antt =====
-- The dead-letter consumer of `NatsEventBus` in app/core/nats_bus.py: a message of the dead-letter
-- stream becomes a row of the dead-letter table.
pub mod Persisted
use fast_kit.Kit.{
  Text, codes, ℕ, ◌*◌, ◌/◌, ◌^◌, ◌<◌, min, max, String, Option, none, some, List, [], ◌∷◌, ◌==◌,
  if◌then◌else◌, ltb, or_else, Method, ◌>>◌, Result, ok, err, parse_decimal,
}
use fast_kit.Events.Settings.{
  nats_consumer_max_deliver, nats_dlq_consumer_max_deliver, nats_dlq_retry_base_delay,
  nats_dlq_retry_max_delay,
}
use fast_kit.Events.Values.{Value, str, obj, field, end, Wire}
use fast_kit.Events.Serializer.{SerializationError, SerializedEvent, from_json}
use fast_kit.Events.Subjects.{origin_subject_for_dlq_subject}
use fast_kit.Events.Database.{Tables, Environment, World, Failure, in_session, commit}
use fast_kit.Events.Outbox.{add_dead_letter}
use fast_kit.Events.Consumer.{
  Msg, Answer, ack, nak, num_delivered, dlq_header_error, dlq_header_origin_subject,
  dlq_header_delivery_count,
}

abbrev unparsable_event_class : Text
unparsable_event_class = codes "<unparsable>"

-- `headers.get(name)`
unfoldable pub header : String → List (String × Text) → Option Text
header name [] = none
header name ((key, value) ∷ rest) = if key == name then some value else header name rest

-- `value or fallback`: an empty text counts as missing.
unfoldable pub header_or : Option Text → Text → Text
header_or none fallback = fallback
header_or (some []) fallback = fallback
header_or (some (c ∷ s)) fallback = c ∷ s

-- `base64.b64encode(data)` and `data[:512].decode(errors="replace")`
pub record Codecs : Type 0 where
  pub b64encode : Wire → Text
  pub preview : Wire → Text

-- The columns of the row that a message becomes.
pub record DeadLetter : Type 0 where
  pub event_class_path : Value
  pub payload : Value
  pub subject : Text
  pub error_message : Text
  pub attempts : ℕ

-- The class path and the payload; bytes that cannot be decoded are kept as they are.
unfoldable pub dead_letter_event : Codecs → Wire → SerializedEvent
unfolding from_json
dead_letter_event codecs wire = elim (from_json wire) [
  | ok serialized ↦ serialized
  | err _ ↦ record {
    event_class = str unparsable_event_class;
    payload = obj (
        field "raw_base64" (str (codecs.b64encode wire))
          (field "raw_preview" (str (codecs.preview wire)) end));
  }
]

unfoldable pub dead_letter_of : Codecs → Msg → DeadLetter
unfolding dead_letter_event header header_or
dead_letter_of codecs msg =
    let event = dead_letter_event codecs msg.wire in
    record {
      event_class_path = event.event_class;
      payload = event.payload;
      subject =
          header_or (header dlq_header_origin_subject msg.headers)
            (origin_subject_for_dlq_subject msg.subject);
      error_message =
          header_or (header dlq_header_error msg.headers) (codes "Exceeded max delivery attempts");
      attempts =
          or_else (parse_decimal (or_else (header dlq_header_delivery_count msg.headers) []))
            nats_consumer_max_deliver;
    }

-- `min(base * 2 ** (delivered - 1), max)`, in milliseconds
unfoldable pub retry_delay : ℕ → ℕ
retry_delay delivered = min (nats_dlq_retry_base_delay * 2 ^ delivered / 2) nats_dlq_retry_max_delay

unfoldable pub retry_or_abandon : Msg → Answer
unfolding retry_delay num_delivered
retry_or_abandon msg =
    let delivered = num_delivered msg nats_dlq_consumer_max_deliver in
    if ltb delivered nats_dlq_consumer_max_deliver
    then nak (some (retry_delay delivered))
    else nak none

module _ {B : Type 0} (env : Environment) (codecs : Codecs) where
  -- The row and the commit, in a session of their own.
  unfoldable pub store_dead_letter : DeadLetter → Method (World B) Failure (Unit {0})
  unfolding add_dead_letter in_session commit
  store_dead_letter d = in_session env (
      add_dead_letter env d.event_class_path d.payload d.subject d.error_message d.attempts
      >> commit env)

  -- The answer, by how the session ended.
  unfoldable pub answer_stored : Msg → Result Failure (Unit {0}) × World B → Answer × World B
  unfolding retry_or_abandon
  answer_stored msg (ok _, w) = (ack, w)
  answer_stored msg (err _, w) = (retry_or_abandon msg, w)

  unfoldable pub persist_dlq_message : Msg → World B → Answer × World B
  unfolding store_dead_letter answer_stored dead_letter_of
  persist_dlq_message msg w = answer_stored msg (store_dead_letter (dead_letter_of codecs msg) w)
