-- ===== src/Mcp/Client.antt =====
-- app/mcp/client.py. What the SDK of MCP returns is given as plain data: a tool is what its
-- `model_dump(mode="json", exclude_none=True)` gives, a result of a call is `CallToolResult`, and a
-- session answers with pages of tools. `none` is an exception.
pub mod Session
pub mod Snake
pub mod Shadowing
pub mod Pages
mod Tests
use Prim.Native.Char.{Char, code}
use Prim.Native.String.{◌++◌, char_at}
use agentic_firewall.Base.{
  ℕ, zero, suc, ◌-◌, String, Bool, true, false, ◌||◌, ◌&&◌, Option, none, some, List, [], ◌∷◌,
  ◌++◌ as ◌⧺◌, map, is_upper, is_lower, is_digit, ◌==◌, if◌then◌else◌,
}
use agentic_firewall.Json.{
  Value, null, bool, number, text, array, object, other, Items, no_items, item, Fields, no_fields,
  field,
}
use agentic_firewall.Json.Access.{get_field, set_field, without_field}
use agentic_firewall.Result.{Result, ok, raise, upstream_error, ◌>>=◌}
use agentic_firewall.Models.Requests.{ToolDefinition, ToolResponse}

-- str.lower() of a letter of [A-Z]
abbrev pub lower_char : Char → Char
lower_char c = char_at "abcdefghijklmnopqrstuvwxyz" (code c - b'A')

-- _CAMEL.sub(...), where `lower` says that the character before is in [a-z0-9].
unfoldable pub snake_after : Bool → String → String
snake_after lower String.[] = ""
snake_after lower (String.◌∷◌ c s) =
    let rest = snake_after (is_lower (code c) || is_digit (code c)) s in
    if lower && is_upper (code c)
    then String.◌∷◌ "_" (String.◌∷◌ (lower_char c) rest)
    else String.◌∷◌ c rest

-- `_snake`
unfoldable pub snake : String → String
snake key = snake_after false key

abbrev pub add_snake_keys : Fields → Fields → Fields
add_snake_keys done no_fields = done
add_snake_keys done (field name value rest) =
    add_snake_keys (set_field (snake name) value done) rest

-- `_snake_keys`
unfoldable pub snake_keys : Fields → Fields
snake_keys d = add_snake_keys no_fields d

-- bool(value), for what a dump in JSON mode holds; a number is 0 where its text is.
unfoldable pub is_true : Value → Bool
is_true null = false
is_true (bool b) = b
is_true (number s) = if s == "0" || s == "0.0" || s == "-0.0" then false else true
is_true (text s) = if s == "" then false else true
is_true (array no_items) = false
is_true (object no_fields) = false
is_true value = true

-- data.pop("description", "") or "", where the model's field takes only a text.
abbrev pub description_of : Option Value → Result String
description_of none = ok ""
description_of (some (text s)) = ok s
description_of (some value) = if is_true value then raise upstream_error else ok ""

-- data.pop(key, None) or {}, where only a dict goes on.
abbrev pub dict_of : Option Value → Result Fields
dict_of none = ok no_fields
dict_of (some (object fs)) = ok fs
dict_of (some value) = if is_true value then raise upstream_error else ok no_fields

abbrev pub name_of : Option Value → Result String
name_of (some (text s)) = ok s
name_of _ = raise upstream_error

unfoldable pub tool_to_definition : Fields → Result ToolDefinition
tool_to_definition dump = do
  let data0 = snake_keys dump
  name ← name_of (get_field "name" data0)
  let data1 = without_field "name" data0
  description ← description_of (get_field "description" data1)
  let data2 = without_field "description" data1
  input_schema ← dict_of (get_field "input_schema" data2)
  let data3 = without_field "input_schema" data2
  annotations ← dict_of (get_field "annotations" data3)
  ok (record {
    name = name;
    description = description;
    input_schema = input_schema;
    annotations = snake_keys annotations;
    extras = without_field "annotations" data3;
  })

-- A block of a result's content: a resource carries its text, if it has one that is a text; of any
-- other block only the type counts.
pub data Block : Type 0 where
  text_block : String → Block
  resource_block : Option String → Block
  other_block : String → Block

pub record CallToolResult : Type 0 where
  pub content : List Block
  pub is_error : Bool
  pub structured : Option Value

unfoldable pub part : Block → String
part (text_block s) = s
part (resource_block (some s)) = s
part (resource_block none) = "[binary resource omitted by firewall]"
part (other_block type) = "[" ++ type ++ " content omitted by firewall]"

-- "\n".join(parts)
unfoldable pub join_lines : List String → String
join_lines [] = ""
join_lines (s ∷ []) = s
join_lines (s ∷ t ∷ rest) = s ++ "\n" ++ join_lines (t ∷ rest)

-- The parts, where none is there: the structured content, which `dumps` writes.
abbrev pub parts_of : (Value → String) → List String → Option Value → List String
parts_of dumps [] (some v) = dumps v ∷ []
parts_of dumps parts structured = parts

-- `none` is a result with no `content`.
unfoldable pub result_to_response : (Value → String) → Option CallToolResult → ToolResponse
result_to_response dumps none = record {
  text = "[unsupported upstream result type]";
  is_error = true;
}
result_to_response dumps (some r) = record {
  text = join_lines (parts_of dumps (map part r.content) r.structured);
  is_error = r.is_error;
}
