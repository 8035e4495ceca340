-- ===== src/Events/Examples.antt =====
-- Example data, tests, and the theorems of the event modules at concrete inputs.
mod Recovery
mod Delivery
use fast_kit.Events.AdminApi.{replay_event}
use fast_kit.Events.AdminApi.Replay.{replay_event_cases, IsLeft, IsReplayed}
use fast_kit.Events.Relay.Records.{IsAccounted, IsPrivate}
use fast_kit.Events.DeadLetters.Persisted.{
  dead_letter_of-dead_letter_copy, persist_dlq_message_cases, retry_delay_doubles, row_for, arrived,
}
use fast_kit.Events.Settings.{
  nats_dlq_retry_max_delay, nats_consumer_max_deliver, nats_dlq_retry_base_delay,
  nats_events_subject_prefix,
}
use fast_kit.Events.Relay.{relay_pending_outbox, message_of, publish_durable}
use fast_kit.Events.Consumer.Answers.{handle_message_acked, IsCopied, IsHandled}
use fast_kit.Events.Relay.Durable.{durable_unit_of_work-IsSafe, IsSafe, BodyKeeps}
use fast_kit.Events.Consumer.Redelivery.{redelivery_ends, IsReachable, redeliver}
use fast_kit.Events.DeadLetters.{
  dead_letter_event, retry_or_abandon, Codecs, retry_delay, persist_dlq_message, dead_letter_of,
}
use fast_kit.Events.Subjects.Mapping.{
  subject_tokens, durable_name-Free, event_token, origin-dlq, Free,
}
use fast_kit.Events.Consumer.{
  dead_letter_copy, ack, Handler, Msg, run_handlers, decode, handle_message,
}
use fast_kit.Kit.{
  Text, codes, text_eq→eq, text_eq_refl, text_eq, ℕ, zero, suc, ◌+◌, ◌-◌, ◌*◌, ◌/◌, ◌%◌, ◌^◌, ◌≤◌,
  ◌<◌, min, max, String, ◌≡◌, refl, sym, ap, ◌∙◌, fun_ext, subst, ◌≢◌, ◌↔◌, ◌⊎◌, inl, inr, Bool,
  true, false, not, ◌&&◌, ◌||◌, false≢true, Option, none, some, List, [], ◌∷◌, ◌++◌, map,
  append-nil, append_assoc, map-append, arith, ◌==◌, eq_iff, eq_refl, if◌then◌else◌, ltb, leb,
  num_eq, is_some, or_else, Bool-cases, Option-cases, num_eq→eq, num_eq_refl, text-cases, text_ne,
  if-not, option_map, and_true, num_eq_of_eq, not-false, option_map-some, length, take, drop,
  where_, any, find, update_where, length-append, length-take, length-update_where, All, All-append,
  insert_ordered, order_by, Any-append_left, Any-append_right, Any-map, In, In-update_where,
  In-update_where_of, All-of_In, In-where_, In-take, In-insert_ordered, In-order_by, In-append,
  find-holds, Any, here, there, Method, pure, raise, gets, lift, or_raise, modify, raise_if, ◌>>=◌,
  ◌>>◌, is_ok, bind-ok, bind-err, for_each, Result, ok, err, Ensures-bind, Ensures-if,
  Ensures-weaken, state-Ensures, Ensures-self, Ensures-both, Ensures-for_each, Exactly,
  Ensures-then, Ensures-raise_if, Ensures-returned, Ensures-never, Ensures, returns, raises,
  decimal, parse_decimal, parse-decimal, pair_with, join, In-join, join-In, where_-In, any-In,
  In-any, counted-In, In-map, map-In, find-In, In-end,
}
use fast_kit.Events.Values.{obj, Wire, num, str, end, field, EventType, Event, Runtime}
use fast_kit.Events.Serializer.{
  dot, class_path, SerializationError, has_dot, SerializedEvent, serialize, deserialize, from_json,
  to_json,
}
use fast_kit.Events.Serializer.RoundTrip.{IsRebuildable, wire_round_trip}
use fast_kit.Events.Subjects.{
  module_name_for_event, durable_name, dlq_subject_for_event_type, dlq_subject_for_subject,
  split_dot, origin_subject_for_dlq_subject, subject_for_event_type,
}
use fast_kit.Events.Database.{
  publish, durable_unit_of_work, Failure, Environment, Tables, World, accepted, fresh_session,
}
use fast_kit.Events.Relay.Staging.{
  decode-staged, staged_row, publish_durable_stages, IsStaged, IsReady,
}

abbrev pub order_event_type : EventType
order_event_type = record {
  module_name = codes "app.modules.ordering.domain.events";
  qualname = codes "OrderCreated";
  is_dataclass = true;
}

abbrev pub order_seven : Event
order_seven = record {
  type = order_event_type;
  attributes = field "order_id" (num 7) (field "order_number" (str (codes "A-7")) end);
}

-- A runtime that knows one class.
abbrev pub one_class : Runtime
one_class = record {
  import_module = λ _. true;
  get_class = λ _ _. some order_event_type;
  construct = λ _ attributes. some attributes;
  str_of = λ _. codes "7";
}

-- No statement fails, and the broker takes all messages.
abbrev pub good : Environment
good = record { db_fails = λ _. false; broker_reply = λ _ _. accepted }

-- A world between two sessions, with these tables.
abbrev pub world_of : {B : Type 0} → Tables B → World B
world_of tables = record {
  db = tables;
  committed = tables;
  statements = 0;
  connected = true;
  sent = [];
  publishes = 0;
}

abbrev pub empty_tables : {B : Type 0} → B → Tables B
empty_tables b = record {
  business = b;
  outbox = [];
  event_store = [];
  dead_letters = [];
  next_id = 1;
  now = 100;
}

abbrev pub empty_world : {B : Type 0} → B → World B
empty_world b = world_of (empty_tables b)

pub empty_world-IsReady : {B : Type 0} (b : B) → IsReady (empty_world b)
empty_world-IsReady b = record {
  books = λ r i. elim i [ ];
  keyed = record { unique = λ a b i. elim i [ ] };
  fresh = λ r i. elim i [ ];
}

order_created-subject :
    subject_for_event_type order_event_type ≡ codes "events.ordering.order_created"
unfolding subject_for_event_type
order_created-subject = refl

order_seven-IsRebuildable : IsRebuildable one_class order_seven
unfolding has_dot
order_seven-IsRebuildable = record {
  dataclass = refl;
  named = refl;
  simple = refl;
  qualnamed = refl;
  importable = refl;
  found = refl;
  accepted = refl;
}

wire_round_trip_example :
    (s : SerializedEvent) × (serialize order_seven ≡ ok s)
    × (from_json (to_json s) ≡ ok s)
    × (deserialize one_class s ≡ ok order_seven)
wire_round_trip_example = wire_round_trip one_class order_seven order_seven-IsRebuildable

-- A body that stages one event, in `durable_unit_of_work`.
pub stage_seven : Method (World (Unit {0})) Failure (Unit {0})
stage_seven = publish_durable good one_class order_seven

pub stage_seven-BodyKeeps : BodyKeeps (λ _ _. Unit {0}) stage_seven (empty_world tt)
unfolding stage_seven
stage_seven-BodyKeeps =
    Ensures-weaken _ _ _ _ (λ a w h. (tt, h.ready.books, h.ready.keyed, h.past)) (λ w h. h) _
      (publish_durable_stages good one_class order_seven (empty_world tt) (empty_world-IsReady tt))

durable_unit_of_work-IsSafe_example :
    Ensures
      (λ _ w. Unit {0} × IsSafe (stage_seven (empty_world tt)).1.db [] w)
      (λ w. IsAccounted (fresh_session w) × IsPrivate (empty_world tt) w)
      (durable_unit_of_work good (relay_pending_outbox good one_class) stage_seven (empty_world tt))
durable_unit_of_work-IsSafe_example =
    durable_unit_of_work-IsSafe good one_class (λ _ _. Unit {0}) stage_seven (empty_world tt)
      (empty_world-IsReady tt).books stage_seven-BodyKeeps

publish_durable_stages_example :
    Ensures
      (λ _. IsStaged order_seven (empty_world tt))
      (IsPrivate (empty_world tt))
      (publish_durable good one_class order_seven (empty_world tt))
publish_durable_stages_example =
    publish_durable_stages good one_class order_seven (empty_world tt) (empty_world-IsReady tt)

decode-staged_example :
    decode one_class (message_of (staged_row order_seven (empty_world tt).db)).wire ≡ ok order_seven
decode-staged_example =
    decode-staged one_class order_seven (empty_world tt).db order_seven-IsRebuildable

-- A message that cannot be decoded, and one that can.
abbrev poison : Msg
poison = record {
  subject = codes "events.ordering.order_created";
  wire = Wire.junk (codes "?");
  headers = [];
  metadata = some (some 2);
}

abbrev sound : Msg
sound = record poison {
  wire = to_json (record {
    event_class = str (class_path order_event_type);
    payload = obj order_seven.attributes;
  });
}

-- A handler that always raises.
abbrev failing : Handler (Unit {0})
failing event w = (err (codes "no"), w)

abbrev unexplained : SerializationError → Text
unexplained _ = codes "EventSerializationError"

handle_message_acked_example :
    IsHandled one_class (failing ∷ []) poison (empty_world tt)
    ⊎ IsCopied poison
        (handle_message good one_class unexplained (failing ∷ []) poison (empty_world tt)).1
unfolding handle_message publish
handle_message_acked_example =
    handle_message_acked good one_class unexplained (failing ∷ []) poison (empty_world tt) refl

failing-IsReachable : IsReachable good (failing ∷ [])
unfolding run_handlers
failing-IsReachable = record { takes = λ n m. refl; stays = λ event w on. on }

redelivery_ends_example :
    (k : ℕ) × (redeliver good one_class unexplained
        (failing ∷ [])
        sound
        nats_consumer_max_deliver
        1
        (empty_world tt)
      ≡ some k)
    × (k ≤ nats_consumer_max_deliver)
redelivery_ends_example =
    redelivery_ends good one_class unexplained (failing ∷ []) sound (empty_world tt)
      failing-IsReachable refl

abbrev codecs : Codecs
codecs = record { b64encode = λ _. codes "Pw=="; preview = λ _. codes "?" }

persist_dlq_message_cases_example :
    let (answer, w) = persist_dlq_message good codecs poison (empty_world tt) in
    (answer ≡ ack)
      × (w.committed.dead_letters
          ≡ row_for (dead_letter_of codecs poison) (empty_world tt).committed ∷ [])
    ⊎ (answer ≡ retry_or_abandon poison)
      × (answer ≢ ack)
      × (w.committed ≡ (empty_world tt).committed)
persist_dlq_message_cases_example = persist_dlq_message_cases good codecs poison (empty_world tt)

dead_letter_of-dead_letter_copy_example :
    let d = dead_letter_of codecs (arrived (dead_letter_copy poison (codes "no") 5) none) in
    (d.subject ≡ poison.subject)
    × (d.error_message ≡ codes "no")
    × (d.attempts ≡ 5)
    × (d.event_class_path ≡ (dead_letter_event codecs poison.wire).event_class)
    × (d.payload ≡ (dead_letter_event codecs poison.wire).payload)
dead_letter_of-dead_letter_copy_example =
    dead_letter_of-dead_letter_copy codecs poison (codes "no") 5 none (λ e. cc e) (λ e. cc e)

retry_delay_doubles_example :
    (retry_delay 1 ≡ nats_dlq_retry_base_delay)
    × (retry_delay 3 ≡ min (2 * retry_delay 2) nats_dlq_retry_max_delay)
retry_delay_doubles_example = retry_delay_doubles 1

subject_tokens_example :
    split_dot (subject_for_event_type order_event_type)
    ≡ nats_events_subject_prefix
      ∷ module_name_for_event order_event_type
      ∷ event_token order_event_type
      ∷ []
subject_tokens_example = subject_tokens order_event_type

origin-dlq_example :
    origin_subject_for_dlq_subject (dlq_subject_for_subject (codes "events.users.registered"))
    ≡ codes "events.users.registered"
origin-dlq_example = origin-dlq (codes "users.registered")

durable_name-Free_example :
    Free dot (durable_name (codes "events.>"))
    × Free b'*' (durable_name (codes "events.>"))
    × Free b'>' (durable_name (codes "events.>"))
durable_name-Free_example = durable_name-Free (codes "events.>")

-- A world with one stored event, of key 1.
abbrev stored_world : World (Unit {0})
stored_world = world_of (record (empty_tables tt) {
  event_store =
      record {
        id = 1;
        event_type = codes "OrderCreated";
        event_class_path = class_path order_event_type;
        aggregate_id = some (codes "7");
        payload = order_seven.attributes;
        correlation_id = none;
        published_at = 90;
      }
      ∷ [];
})

replay_event_cases_example :
    Ensures
      (IsReplayed good one_class 1 stored_world)
      (IsLeft good one_class stored_world)
      (replay_event good one_class 1 stored_world)
replay_event_cases_example = replay_event_cases good one_class 1 stored_world
