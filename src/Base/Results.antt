-- ===== src/Base/Results.antt =====
-- Results of operations that return a value or an error.
use mathlib.Core.Path.{◌≡◌, refl}
use mathlib.Core.Option.{Option, none, some}
use mathlib.Core.Logic.{◌⊎◌, inl, inr}

pub data Result {ℓ κ} (E : Type ℓ) (A : Type κ) : Type (ℓ ⊔ κ) where
  ok : A → Result E A
  err : E → Result E A

infixl 5 ◌>>=◌
abbrev pub ◌>>=◌ {ℓ κ ν} :
    {Error : Type ℓ} {Value : Type κ} {Next : Type ν}
    → Result Error Value
    → (Value → Result Error Next)
    → Result Error Next
ok value >>= next = next value
err why >>= next = err why

-- Where a chain of two operations has a result, both have one.
pub >>=-eq-ok {ℓ κ ν} :
    {Error : Type ℓ} {Value : Type κ} {Next : Type ν} (first : Result Error Value)
    (next : Value → Result Error Next) {out : Next}
    → (first >>= next) ≡ ok out
    → (value : Value) × (first ≡ ok value) × (next value ≡ ok out)
>>=-eq-ok (ok value) next returned = (value, refl, returned)
>>=-eq-ok (err why) next returned = cc

pub Result-cases {ℓ κ} :
    {Error : Type ℓ} {Value : Type κ} (outcome : Result Error Value)
    → ((why : Error) × (outcome ≡ err why)) ⊎ ((value : Value) × (outcome ≡ ok value))
Result-cases (ok value) = inr (value, refl)
Result-cases (err why) = inl (why, refl)

pub ok-injective {ℓ κ} :
    {E : Type ℓ} {A : Type κ} {a b : A} → ◌≡◌ {A = Result E A} (ok a) (ok b) → a ≡ b
ok-injective h = cc

-- The first value that is there.
abbrev pub or_else {ℓ} : {A : Type ℓ} → Option A → Option A → Option A
or_else none o = o
or_else (some a) o = some a
