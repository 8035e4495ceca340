-- ===== src/Events/Serializer.antt =====
-- app/core/event_serializer.py
pub mod RoundTrip
use fast_kit.Kit.{
  ℕ, ◌+◌, Bool, true, false, not, ◌||◌, none, some, [], ◌∷◌, ◌++◌, if◌then◌else◌, num_eq, or_else,
  Result, ok, err, Text,
}
use fast_kit.Events.Values.{
  Value, str, obj, Fields, end, field, get, Wire, json, loads, EventType, Event, Runtime,
}

-- `EventSerializationError`, a constructor for each message
pub data SerializationError : Type 0 where
  not_dataclass : SerializationError
  invalid_json : SerializationError
  not_an_object : SerializationError
  missing_event_class : SerializationError
  malformed_path : Value → SerializationError
  cannot_import : Text → SerializationError
  class_not_found : Text → SerializationError
  payload_not_an_object : Value → SerializationError
  cannot_instantiate : Text → SerializationError

-- The two fields come off the wire unchecked, so they are any values.
pub record SerializedEvent : Type 0 where
  pub event_class : Value
  pub payload : Value

abbrev pub dot : ℕ
dot = b'.'

unfoldable pub to_json : SerializedEvent → Wire
to_json s = json (obj (field "event_class" s.event_class (field "payload" s.payload end)))

-- The part of `from_json` behind the test for a dict.
from_object : Fields → Result SerializationError SerializedEvent
unfolding get
from_object decoded = elim (get "event_class" decoded) [
  | none ↦ err missing_event_class
  | some event_class ↦
      ok (record { event_class = event_class; payload = or_else (get "payload" decoded) (obj end) })
]

unfoldable pub from_json : Wire → Result SerializationError SerializedEvent
unfolding from_object
from_json data_ = elim (loads data_) [
  | none ↦ err invalid_json
  | some (obj decoded) ↦ from_object decoded
  | some _ ↦ err not_an_object
]

-- `f"{cls.__module__}.{cls.__qualname__}"`
unfoldable pub class_path : EventType → Text
class_path c = c.module_name ++ dot ∷ c.qualname

unfoldable pub serialize : Event → Result SerializationError SerializedEvent
unfolding class_path
serialize event =
    if not event.type.is_dataclass
    then err not_dataclass
    else ok (record { event_class = str (class_path event.type); payload = obj event.attributes })

unfoldable pub has_dot : Text → Bool
has_dot [] = false
has_dot (c ∷ s) = num_eq c dot || has_dot s

-- `path.rsplit(".", 1)`: what stands before and behind the last dot; without a dot the whole text
-- stands behind.
unfoldable pub rsplit_dot : Text → Text × Text
unfolding has_dot
rsplit_dot [] = ([], [])
rsplit_dot (c ∷ s) =
    let rest = rsplit_dot s in
    if has_dot s then (c ∷ rest.0, rest.1) else if num_eq c dot then ([], s) else ([], c ∷ s)

abbrev is_empty : Text → Bool
is_empty [] = true
is_empty (_ ∷ _) = false

module _ (runtime : Runtime) where
  open runtime use {import_module, get_class, construct}

  -- The class is found: the checks on the payload, and the call of the class.
  instantiate : Text → EventType → Value → Result SerializationError Event
  instantiate path cls (obj payload) = elim (construct cls payload) [
    | none ↦ err (cannot_instantiate path)
    | some attributes ↦ ok (record { type = cls; attributes = attributes })
  ]
  instantiate path cls payload = err (payload_not_an_object payload)

  -- The class of a path that has been split.
  resolve : Text → Text → Text → Value → Result SerializationError Event
  unfolding instantiate
  resolve path module_name class_name payload =
      if is_empty module_name || is_empty class_name
      then err (malformed_path (str path))
      else if not (import_module module_name)
      then err (cannot_import module_name)
      else elim (get_class module_name class_name) [
        | none ↦ err (class_not_found path)
        | some cls ↦ instantiate path cls payload
      ]

  unfoldable pub deserialize : SerializedEvent → Result SerializationError Event
  unfolding resolve has_dot rsplit_dot
  deserialize s = elim s.event_class [
    | str path ↦
        if not (has_dot path)
        then err (malformed_path (str path))
        else resolve path (rsplit_dot path).0 (rsplit_dot path).1 s.payload
    | other ↦ err (malformed_path other)
  ]
