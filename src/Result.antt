-- ===== src/Result.antt =====
-- What a call may raise, as a value.
use agentic_firewall.Base.{ℕ, String, ◌≡◌, refl}

-- `db_error` stands for the errors of sqlite3, which the program does not tell apart.
pub data Error : Type 0 where
  auth_error value_error permission_denied : String → Error
  rate_limited : ℕ → Error
  db_error upstream_error cancelled : Error

pub data Result {ℓ} (Value : Type ℓ) : Type ℓ where
  raise : Error → Result Value
  ok : Value → Result Value

infixl 5 ◌>>=◌
abbrev pub ◌>>=◌ {ℓ κ} :
    {Value : Type ℓ} {Next : Type κ} → Result Value → (Value → Result Next) → Result Next
raise error >>= next = raise error
ok value >>= next = next value

-- A successful chain: each part succeeds.
pub >>=-eq-ok {ℓ κ} :
    {Value : Type ℓ} {Next : Type κ} (first : Result Value) (then_ : Value → Result Next)
    {end : Next}
    → (first >>= then_) ≡ ok end
    → (value : Value) × (first ≡ ok value) × (then_ value ≡ ok end)
>>=-eq-ok (raise error) then_ h = cc
>>=-eq-ok (ok value) then_ h = (value, refl, h)
