-- ===== src/Model/Json.antt =====
-- JSON documents: the `content` column and the bodies of messages. A number is kept as its digits.
use high_throughput_notifica.Decimal.{Bytes}
use high_throughput_notifica.Prelude.{String, Option, none, some, Bool, str_eq, if◌then◌else◌}

mutual
  pub data Json : Type 0 where
    null : Json
    boolean : Bool → Json
    number : Bytes → Json
    text : String → Json
    array : Items → Json
    object : Fields → Json

  pub data Items : Type 0 where
    nil : Items
    cons : Json → Items → Items

  pub data Fields : Type 0 where
    end : Fields
    field : String → Json → Fields → Fields

-- `d.get(key)`: the value of a key of an object, if it has one.
unfoldable pub get : String → Fields → Option Json
get key end = none
get key (field name value rest) = if str_eq name key then some value else get key rest
