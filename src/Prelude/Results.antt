-- ===== src/Prelude/Results.antt =====
-- Python's exceptions as values, with `do` blocks.
use mathlib.Core.Path.{◌≡◌, refl}
use mathlib.Core.Bool.{Bool, true, false}

-- The exceptions that the modelled code raises or lets through.
pub data Error : Type 0 where
  invalid_fqdn value_error index_error runtime_error lua_error zero_division_error type_error :
      Error

-- What a call raises, or what it returns.
pub data Result {ℓ} (Value : Type ℓ) : Type ℓ where
  err : (raised : Error) → Result Value
  ok : (value : Value) → Result Value

-- `if bad: raise e`
abbrev pub raise_if : Bool → Error → Result (Unit {0})
raise_if false raised = ok tt
raise_if true raised = err raised

infixl 5 ◌>>=◌
abbrev pub ◌>>=◌ {ℓ κ} :
    {Value : Type ℓ} {Next : Type κ} → Result Value → (Value → Result Next) → Result Next
err raised >>= next = err raised
ok value >>= next = next value

-- A block that succeeds: its first step did, and so did what follows it.
pub bind-eq-ok {ℓ κ} :
    {Value : Type ℓ} {Next : Type κ} (step : Result Value) (next : Value → Result Next)
    {final : Next}
    → (step >>= next) ≡ ok final
    → (value : Value) × (step ≡ ok value) × (next value ≡ ok final)
bind-eq-ok (err raised) next h = absurd (cc)
bind-eq-ok (ok value) next h = (value, refl, h)

infixl 5 ◌>>◌
-- A statement, and what follows it.
abbrev pub ◌>>◌ {ℓ} : {Next : Type ℓ} → Result (Unit {0}) → Result Next → Result Next
first >> next = first >>= λ _. next

abbrev pub is_ok {ℓ} : {A : Type ℓ} → Result A → Bool
is_ok (ok a) = true
is_ok (err e) = false

pub is_ok→value {ℓ} : {A : Type ℓ} (m : Result A) → is_ok m ≡ true → (a : A) × (m ≡ ok a)
is_ok→value (ok a) h = (a, refl)
is_ok→value (err e) h = absurd (cc)
