-- ===== src/Mcp/Client/Shadowing.antt =====
-- Fields of a tool whose keys are one key in snake case, for `tool_to_definition` of
-- app/mcp/client.py.
use agentic_firewall.Base.{
  ◌≡◌, ◌≢◌, ◌⊎◌, inl, inr, refl, sym, ◌∙◌, ap, String, true, false, none, ◌==◌, eq_iff, eq_refl,
  Bool-cases,
}
use agentic_firewall.Json.{Value, Fields, no_fields, field}
use agentic_firewall.Json.Access.{set_field}
use agentic_firewall.Mcp.Client.{snake, snake_keys, add_snake_keys, tool_to_definition}
use agentic_firewall.Mcp.Client.Snake.{last_field}

-- One dump behind another.
abbrev pub joined : Fields → Fields → Fields
joined no_fields after = after
joined (field name value rest) after = field name value (joined rest after)

-- Two dicts that are the same but for the value under a key.
SameBut : String → Fields → Fields → Type 0
SameBut k no_fields no_fields = Unit
SameBut k (field n v r) (field n' v' r') =
    (n ≡ n') × ((((n == k) ≡ true) × (r ≡ r')) ⊎ (((n == k) ≡ false) × (v ≡ v') × SameBut k r r'))
SameBut k _ _ = ⊥

SameBut-set_field :
    (k : String) (v v' : Value) (d : Fields) → SameBut k (set_field k v d) (set_field k v' d)
unfolding SameBut set_field
SameBut-set_field k v v' no_fields = (refl, inl (eq_refl k, refl))
SameBut-set_field k v v' (field n old rest) = elim (Bool-cases (n == k)) [
  | inl same ↦ rw same (refl, inl (same, refl))
  | inr other ↦ rw other (refl, inr (other, refl, SameBut-set_field k v v' rest))
]

-- A write to another key keeps it so, and a write to that key makes the dicts equal.
set_field-SameBut :
    (k j : String) (w : Value) (a b : Fields)
    → SameBut k a b
    → SameBut k (set_field j w a) (set_field j w b)
unfolding SameBut set_field
set_field-SameBut k j w no_fields no_fields h = elim (Bool-cases (j == k)) [
  | inl same ↦ (refl, inl (same, refl))
  | inr other ↦ (refl, inr (other, refl, tt))
]
set_field-SameBut k j w no_fields (field n' v' r') h = absurd h
set_field-SameBut k j w (field n v r) no_fields h = absurd h
set_field-SameBut k j w (field n v r) (field n' v' r') (e, inl (same, e')) =
    rw (sym e, sym e')
      (elim (Bool-cases (n == j)) [
        | inl here ↦ rw here (refl, inl (same, refl))
        | inr there ↦ rw there (refl, inl (same, refl))
      ])
set_field-SameBut k j w (field n v r) (field n' v' r') (e, inr (other, e', h)) =
    rw (sym e, sym e')
      (elim (Bool-cases (n == j)) [
        | inl here ↦ rw here (refl, inr (other, refl, h))
        | inr there ↦ rw there (refl, inr (other, refl, set_field-SameBut k j w r r' h))
      ])

set_field-equal :
    (k : String) (w : Value) (a b : Fields) → SameBut k a b → set_field k w a ≡ set_field k w b
unfolding SameBut set_field
set_field-equal k w no_fields no_fields h = refl
set_field-equal k w no_fields (field n' v' r') h = absurd h
set_field-equal k w (field n v r) no_fields h = absurd h
set_field-equal k w (field n v r) (field n' v' r') (e, inl (same, e')) =
    rw (sym e, sym e', same) refl
set_field-equal k w (field n v r) (field n' v' r') (e, inr (other, e', h)) =
    rw (sym e, sym e', other) (ap (λ f. field n v f) (set_field-equal k w r r' h))

-- Where a later field has the key, what stood under it before does not count.
add_snake_keys-equal :
    (k : String) (a b after : Fields)
    → SameBut k a b
    → last_field k none after ≢ none
    → add_snake_keys a after ≡ add_snake_keys b after
add_snake_keys-equal k a b no_fields h some_later = absurd (some_later refl)
add_snake_keys-equal k a b (field name value rest) h some_later =
    elim (Bool-cases (snake name == k)) [
      | inl same ↦
          let e : snake name ≡ k = (eq_iff (snake name) k).0 same in
          ap (λ d. add_snake_keys d rest)
            (ap (λ j. set_field j value a) e
              ∙ set_field-equal k value a b h
              ∙ ap (λ j. set_field j value b) (sym e))
      | inr other ↦
          add_snake_keys-equal k (set_field (snake name) value a) (set_field (snake name) value b)
            rest (set_field-SameBut k (snake name) value a b h) (rw other at some_later)
    ]

add_snake_keys-joined :
    (key : String) (value value' : Value) (done before after : Fields)
    → last_field (snake key) none after ≢ none
    → add_snake_keys done (joined before (field key value after))
      ≡ add_snake_keys done (joined before (field key value' after))
add_snake_keys-joined key value value' done no_fields after some_later =
    add_snake_keys-equal (snake key) _ _ after (SameBut-set_field (snake key) value value' done)
      some_later
add_snake_keys-joined key value value' done (field name v rest) after some_later =
    add_snake_keys-joined key value value' (set_field (snake name) v done) rest after some_later

-- Whatever stands before and between: where a later field of a tool has the same key in snake case,
-- such as `input_schema` behind `inputSchema` or the other way round, the value of the earlier one
-- does not count, so a server can change it under one and the same definition.
pub tool_to_definition-shadowed :
    (before after : Fields) (key : String) (value value' : Value)
    → last_field (snake key) none after ≢ none
    → tool_to_definition (joined before (field key value after))
      ≡ tool_to_definition (joined before (field key value' after))
unfolding tool_to_definition snake_keys
tool_to_definition-shadowed before after key value value' some_later =
    rw (add_snake_keys-joined key value value' no_fields before after some_later) refl
