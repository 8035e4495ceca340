-- ===== src/Events/Values.antt =====
-- Python values as far as events carry them (what JSON can say), the bytes on the wire, and what
-- the Python runtime and its codecs do for the serializer.
use fast_kit.Kit.{ℕ, String, Bool, Option, none, some, ◌==◌, if◌then◌else◌, Text}

mutual
  pub data Value : Type 0 where
    null : Value
    bool : Bool → Value
    num : ℕ → Value
    str : Text → Value
    arr : Items → Value
    obj : Fields → Value

  pub data Items : Type 0 where
    nil : Items
    item : Value → Items → Items

  pub data Fields : Type 0 where
    end : Fields
    field : String → Value → Fields → Fields

-- `d.get(key)` and `d[key]`, with `none` for a missing key
unfoldable pub get : String → Fields → Option Value
get key end = none
get key (field name v rest) = if name == key then some v else get key rest

-- Bytes, by what `json.loads(data.decode("utf-8"))` makes of them: the JSON text of a value, or
-- bytes that it rejects.
pub data Wire : Type 0 where
  json : Value → Wire
  junk : Text → Wire

-- `json.loads`, with `none` for the two exceptions
abbrev pub loads : Wire → Option Value
loads (json v) = some v
loads (junk _) = none

-- A class object: where it says it was declared, and whether it is a dataclass.
pub record EventType : Type 0 where
  pub module_name : Text
  pub qualname : Text
  pub is_dataclass : Bool

-- An instance: its class, and its `__dict__`.
pub record Event : Type 0 where
  pub type : EventType
  pub attributes : Fields

-- What Python does for the serializer. `construct` is `event_cls(**payload)`, `none` if it raises.
pub record Runtime : Type 0 where
  pub import_module : Text → Bool
  pub get_class : Text → Text → Option EventType
  pub construct : EventType → Fields → Option Fields
  pub str_of : Value → Text
