-- ===== src/Events/Serializer/RoundTrip.antt =====
-- What is serialized comes back.
use fast_kit.Kit.{◌≡◌, refl, ap, true, false, some, [], ◌∷◌, ◌++◌, arith, ok, Text}
use fast_kit.Events.Values.{str, obj, Event, Runtime}
use fast_kit.Events.Serializer.{
  instantiate, SerializedEvent, dot, to_json, from_json, class_path, serialize, has_dot, rsplit_dot,
  deserialize, is_empty,
}

-- Bytes that `to_json` wrote are read back as the event that they were written from.
from_json-to_json : (s : SerializedEvent) → from_json (to_json s) ≡ ok s
unfolding from_json to_json
from_json-to_json s = refl

has_dot-append : (s t : Text) → has_dot (s ++ dot ∷ t) ≡ true
unfolding has_dot
has_dot-append [] t = refl
has_dot-append (c ∷ s) t = ground (arith, has_dot-append s t)

-- A path splits where it was joined, if the name behind has no dot.
rsplit_dot-append : (s t : Text) → has_dot t ≡ false → rsplit_dot (s ++ dot ∷ t) ≡ (s, t)
unfolding rsplit_dot
rsplit_dot-append [] t h = rw h
rsplit_dot-append (c ∷ s) t h =
    rw has_dot-append (ap (λ r. (c ∷ r.0, r.1)) (rsplit_dot-append s t h))

-- The runtime can build the event again: the class is found where it says it was declared, and its
-- constructor accepts the fields of the instance and sets them.
pub record IsRebuildable (runtime : Runtime) (event : Event) : Type 0 where
  pub dataclass : event.type.is_dataclass ≡ true
  pub named : is_empty event.type.module_name ≡ false
  pub simple : has_dot event.type.qualname ≡ false
  pub qualnamed : is_empty event.type.qualname ≡ false
  pub importable : runtime.import_module event.type.module_name ≡ true
  pub found : runtime.get_class event.type.module_name event.type.qualname ≡ some event.type
  pub accepted : runtime.construct event.type event.attributes ≡ some event.attributes

-- An event that the runtime can build again survives the way over the wire: serialize, to_json,
-- from_json, deserialize.
pub wire_round_trip :
    (runtime : Runtime) (event : Event)
    → IsRebuildable runtime event
    → (s : SerializedEvent) × (serialize event ≡ ok s)
      × (from_json (to_json s) ≡ ok s)
      × (deserialize runtime s ≡ ok event)
unfolding serialize deserialize class_path
wire_round_trip runtime event h = (
  record { event_class = str (class_path event.type); payload = obj event.attributes },
  rw h.dataclass,
  from_json-to_json _,
  rw has_dot-append (
      rw (rsplit_dot-append event.type.module_name event.type.qualname h.simple)
        (rw (h.named, h.qualnamed, h.importable, h.found) (rw (h.accepted, instantiate)))),
)
