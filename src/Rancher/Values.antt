-- ===== src/Rancher/Values.antt =====
-- pkg/rancher: the decoded values that the charts and the KDM data consist of.
-- What yaml.v2 and encoding/json decode. A scalar that is not a string has the name of its Go type and its printed
-- value; a key is `none` when it is not a string. A map is listed in the order of one walk.
use image_tools.Prelude.{Bool, false, Option, none, some, if◌then◌else◌, Text, ◌==◌}

mutual
  pub data Value : Type 0 where
    null : Value
    str : Text → Value
    scalar : Text → Text → Value
    arr : Items → Value
    obj : Fields → Value

  pub data Items : Type 0 where
    nil : Items
    cons : Value → Items → Items

  pub data Fields : Type 0 where
    end : Fields
    field : Option Text → Value → Fields → Fields

abbrev pub is_key : Text → Option Text → Bool
is_key k none = false
is_key k (some j) = j == k

-- `inputMap[k]`
unfoldable pub get_field : Text → Fields → Option Value
unfolding ◌==◌
get_field k end = none
get_field k (field key v fs) = if is_key k key then some v else get_field k fs

-- `v.(string)`
abbrev pub as_string : Option Value → Option Text
as_string (some (str s)) = some s
as_string v = none

-- `v.(map[string]interface{})`
abbrev pub as_map : Option Value → Option Fields
as_map (some (obj fields)) = some fields
as_map v = none

-- `v.([]interface{})`
abbrev pub as_array : Option Value → Option Items
as_array (some (arr items)) = some items
as_array v = none
