-- ===== src/Json.antt =====
-- JSON values, and the serde_json calls of the program as an interface.
use simple_alert_proxy.Prelude.{ℕ, String, Bool, Option, none, some, str_eq, if◌then◌else◌}

-- serde_json's `Value`. A number is kept as the text that it prints as.
mutual
  pub data Value : Type 0 where
    null : Value
    bool : Bool → Value
    number : String → Value
    string : String → Value
    array : Items → Value
    object : Fields → Value

  pub data Items : Type 0 where
    nil : Items
    cons : Value → Items → Items

  pub data Fields : Type 0 where
    end : Fields
    field : String → Value → Fields → Fields

-- `Value::get` of an object's fields
unfoldable pub field_get : Fields → String → Option Value
field_get end k = none
field_get (field j v rest) k = if str_eq j k then some v else field_get rest k

-- `Value::get` with a text
unfoldable pub get : Value → String → Option Value
unfolding field_get
get (object fs) k = field_get fs k
get _ k = none

-- `Value::as_str`
unfoldable pub as_str : Value → Option String
as_str (string s) = some s
as_str _ = none

-- What the program calls of serde_json: printing and parsing, of values and of events. `Event` is
-- the event type; `event_len` is the number of bytes that `to_vec` gives.
pub record Serde (Event : Type 0) : Type 0 where
  pub value_to_string : Value → String
  pub value_from_string : String → Option Value
  pub event_to_string : Event → String
  pub event_from_string : String → Option Event
  pub event_len : Event → ℕ
