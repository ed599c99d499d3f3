-- ===== src/Mcp/Server/Demo.antt =====
-- The demonstration tools of app/mcp/server.py, which touch nothing.
use Prim.Native.String.{◌++◌}
use agentic_firewall.Base.{ℕ, String, Option, none, some, List, [], ◌∷◌, if◌then◌else◌, text_length}
use agentic_firewall.Dict.{Dict, lookup}
use agentic_firewall.Json.{
  Value, text, array, object, Items, no_items, item, Fields, no_fields, field,
}
use agentic_firewall.Json.Access.{get_field, has_only, count_items, count_fields}
use agentic_firewall.Models.Requests.{ToolDefinition}
use agentic_firewall.Scanner.{decimal}
use agentic_firewall.Mcp.Server.{Handler, DemoToolServer, empty_server, register}

-- `_PRICES`, as `{price:.2f}` shows them.
abbrev pub prices : Dict String
prices =
    ("RELIANCE", "2950.55")
    ∷ ("TCS", "4120.10")
    ∷ ("INFY", "1830.75")
    ∷ ("HDFCBANK", "1675.20")
    ∷ []

abbrev pub lift {ℓ κ} : {A : Type ℓ} {B : Type κ} → Option A → (A → Option B) → Option B
lift none f = none
lift (some a) f = f a

-- A required argument of `handler(**arguments)`, where no argument has another name than those.
unfoldable pub argument : List String → String → Fields → Option Value
argument names name arguments = if has_only names arguments then get_field name arguments else none

-- len(value); a number, a truth value and None have none, and of another object nothing is known.
unfoldable pub len_of : Value → Option ℕ
len_of (text s) = some (text_length s)
len_of (array items) = some (count_items items)
len_of (object fields) = some (count_fields fields)
len_of value = none

-- `show` is `str()` of a value in an f-string, `upper` is `str.upper`.
module _ (show : Value → String) (upper : String → String) where
  -- symbol.upper(), which only a text has.
  unfoldable pub upper_of : Value → Option String
  upper_of (text s) = some (upper s)
  upper_of value = none

  unfoldable pub search_news : Handler
  search_news arguments = lift (argument ("query" ∷ []) "query" arguments) (λ query. some (
      "[simulated] Top headlines for '"
      ++ show query
      ++ "': (1) Markets close flat. (2) Analysts expect a steady quarter."))

  abbrev pub quote : Value → String → String
  quote symbol name = elim (lookup name prices) [
    | none ↦ "[simulated] unknown symbol " ++ show symbol
    | some price ↦ "[simulated] " ++ name ++ ": INR " ++ price
  ]

  unfoldable pub get_stock_price : Handler
  get_stock_price arguments =
      lift (argument ("symbol" ∷ []) "symbol" arguments)
        (λ symbol. lift (upper_of symbol) (λ name. some (quote symbol name)))

  unfoldable pub write_file : Handler
  write_file arguments = lift (argument ("path" ∷ "content" ∷ []) "path" arguments) (λ path.
      lift (argument ("path" ∷ "content" ∷ []) "content" arguments) (λ content.
        lift (len_of content)
          (λ n. some ("[simulated] wrote " ++ decimal n ++ " characters to " ++ show path))))

  unfoldable pub delete_file : Handler
  delete_file arguments =
      lift (argument ("path" ∷ []) "path" arguments)
        (λ path. some ("[simulated] deleted " ++ show path))

  -- side: str = "BUY"
  abbrev pub side_of : Option Value → Value
  side_of none = text "BUY"
  side_of (some side) = side

  unfoldable pub execute_trade : Handler
  execute_trade arguments =
      let names = "symbol" ∷ "quantity" ∷ "side" ∷ [] in
      lift (argument names "symbol" arguments) (λ symbol.
        lift (argument names "quantity" arguments) (λ quantity. lift (upper_of symbol) (λ name.
          some (
            "[simulated] "
            ++ show (side_of (get_field "side" arguments))
            ++ " "
            ++ show quantity
            ++ " x "
            ++ name
            ++ " executed"))))

  unfoldable pub execute_command : Handler
  execute_command arguments =
      lift (argument ("command" ∷ []) "command" arguments)
        (λ command. some ("[simulated] would run: " ++ show command))

  -- `_schema`
  abbrev pub texts : List String → Items
  texts [] = no_items
  texts (s ∷ ss) = item (text s) (texts ss)

  unfoldable pub schema : Fields → List String → Fields
  schema properties required =
      field "type" (text "object") (
        field "properties" (object properties)
          (field "required" (array (texts required)) no_fields))

  -- `_STR`
  abbrev pub string_type : Value
  string_type = object (field "type" (text "string") no_fields)

  abbrev pub tool : String → String → Fields → ToolDefinition
  tool name description input_schema = record {
    name = name;
    description = description;
    input_schema = input_schema;
    annotations = no_fields;
    extras = no_fields;
  }

  -- `DEMO_TOOLS`
  unfoldable pub demo_tools : List (ToolDefinition × Handler)
  demo_tools =
      (
        tool "search_news" "Search recent news headlines for a query."
            (schema (field "query" string_type no_fields) ("query" ∷ [])),
        search_news,
      )
      ∷ (
        tool "get_stock_price" "Get the latest price for a stock symbol."
            (schema (field "symbol" string_type no_fields) ("symbol" ∷ [])),
        get_stock_price,
      )
      ∷ (
        tool "write_file" "Write text content to a file." (
            schema (field "path" string_type (field "content" string_type no_fields))
              ("path" ∷ "content" ∷ [])),
        write_file,
      )
      ∷ (
        tool "delete_file" "Delete a file."
            (schema (field "path" string_type no_fields) ("path" ∷ [])),
        delete_file,
      )
      ∷ (
        tool "execute_trade" "Place a market order for a stock." (
            schema
              (field "symbol" string_type (
                field "quantity" (object (field "type" (text "integer") no_fields))
                  (field "side" string_type no_fields)))
              ("symbol" ∷ "quantity" ∷ [])),
        execute_trade,
      )
      ∷ (
        tool "execute_command" "Run a shell command."
            (schema (field "command" string_type no_fields) ("command" ∷ [])),
        execute_command,
      )
      ∷ []

  abbrev pub register_all : DemoToolServer → List (ToolDefinition × Handler) → DemoToolServer
  register_all server [] = server
  register_all server ((defn, handler) ∷ rest) = register_all (register server defn handler) rest

  unfoldable pub build_demo_server : DemoToolServer
  build_demo_server = register_all empty_server demo_tools
