-- ===== src/Prelude/Results.antt =====
-- What a fallible Go function returns: a value, or an error that is not nil.
use mathlib.Core.Path.{◌≡◌, refl}

module _ (Fault : Type 0) where
  pub data Result {ℓ} (Value : Type ℓ) : Type ℓ where
    err : Fault → Result Value
    ok : Value → Result Value

infixl 5 ◌>>=◌ ◌>>◌
-- `if err != nil { return err }` between two calls
abbrev pub ◌>>=◌ {ℓ κ} :
    {Fault : Type 0} {First : Type ℓ} {Last : Type κ}
    → Result Fault First
    → (First → Result Fault Last)
    → Result Fault Last
err fault >>= next = err fault
ok value >>= next = next value

abbrev pub ◌>>◌ {κ} :
    {Fault : Type 0} {Last : Type κ}
    → Result Fault (Unit {0})
    → Result Fault Last
    → Result Fault Last
checked >> next = checked >>= λ u. next

-- A chain that succeeds has a first call that does.
pub >>=-ok {ℓ κ} :
    {Fault : Type 0} {First : Type ℓ} {Last : Type κ} (first : Result Fault First)
    (next : First → Result Fault Last) {last : Last}
    → first >>= next ≡ ok last
    → (value : First) × (first ≡ ok value) × (next value ≡ ok last)
>>=-ok (err fault) next reached = cc
>>=-ok (ok value) next reached = (value, refl, reached)
