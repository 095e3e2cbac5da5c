-- ===== src/Model/Json.antt =====
-- Values of Go's `interface{}` as `encoding/json` decodes them. An object is a list of fields;
-- a map holds a key once, so the first field with the key is its value.
use zai_proxy.Base.{Bool, Option, none, some, if◌then◌else◌}
use zai_proxy.Text.{Bytes, bytes_eq}

mutual
  pub data Value : Type 0 where
    null : Value
    bool : Bool → Value
    num : Bytes → Value
    str : Bytes → Value
    arr : Items → Value
    obj : Fields → Value

  pub data Items : Type 0 where
    nil : Items
    cons : Value → Items → Items

  pub data Fields : Type 0 where
    end : Fields
    field : Bytes → Value → Fields → Fields

-- `v.(string)` in its two-result form.
abbrev pub as_string : Value → Option Bytes
as_string (str s) = some s
as_string _ = none

-- `v.(map[string]interface{})` in its two-result form.
abbrev pub as_object : Value → Option Fields
as_object (obj fs) = some fs
as_object _ = none

-- `m[key]`; a missing key gives the nil interface, here `null`.
unfoldable pub member : Bytes → Fields → Value
member key end = null
member key (field k v fs) = if bytes_eq k key then v else member key fs
