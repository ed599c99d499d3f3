-- ===== src/Json.antt =====
-- Python values of the JSON kind: tool arguments, input schemas and annotations. A number is kept
-- as its text, and `other` is any other object, kept as its `str()`.
pub mod Access
use agentic_firewall.Base.{String, Bool}

mutual
  pub data Value : Type 0 where
    null : Value
    bool : Bool → Value
    number : String → Value
    text : String → Value
    array : Items → Value
    object : Fields → Value
    other : String → Value

  pub data Items : Type 0 where
    no_items : Items
    item : Value → Items → Items

  pub data Fields : Type 0 where
    no_fields : Fields
    field : String → Value → Fields → Fields
