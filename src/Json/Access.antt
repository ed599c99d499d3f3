-- ===== src/Json/Access.antt =====
-- Python's operations on a dict of JSON values.
use agentic_firewall.Base.{
  ℕ, suc, String, Bool, true, Option, none, some, List, ◌&&◌, ◌==◌, contains, if◌then◌else◌,
}
use agentic_firewall.Json.{Value, Items, no_items, item, Fields, no_fields, field}

-- d.get(key)
unfoldable pub get_field : String → Fields → Option Value
get_field key no_fields = none
get_field key (field name value rest) = if name == key then some value else get_field key rest

-- d[key] = value
unfoldable pub set_field : String → Value → Fields → Fields
set_field key value no_fields = field key value no_fields
set_field key value (field name old rest) =
    if name == key then field name value rest else field name old (set_field key value rest)

-- What `d.pop(key, None)` leaves; the keys of a dict are distinct.
unfoldable pub without_field : String → Fields → Fields
without_field key no_fields = no_fields
without_field key (field name value rest) =
    if name == key then rest else field name value (without_field key rest)

-- Every key is one of the names.
unfoldable pub has_only : List String → Fields → Bool
has_only names no_fields = true
has_only names (field name value rest) = contains name names && has_only names rest

unfoldable pub count_items : Items → ℕ
count_items no_items = 0
count_items (item value rest) = suc (count_items rest)

unfoldable pub count_fields : Fields → ℕ
count_fields no_fields = 0
count_fields (field name value rest) = suc (count_fields rest)
