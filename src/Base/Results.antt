-- ===== src/Base/Results.antt =====
-- A Python call that may raise: its value, or the exception.
use mathlib.Core.Path.{◌≡◌, Path, refl}
use mathlib.Core.Bool.{Bool, true, false}

pub data Result {ℓ} (E A : Type ℓ) : Type ℓ where
  ok : A → Result E A
  err : E → Result E A

-- `if test: raise e`
abbrev pub raise_if : {E : Type 0} → Bool → E → Result E Unit
raise_if false e = ok tt
raise_if true e = err e

-- The rest of a method runs with the value of a call, and not at all after an exception.
infixl 5 ◌>>=◌ ◌>>◌
abbrev pub ◌>>=◌ {ℓ} : {E A B : Type ℓ} → Result E A → (A → Result E B) → Result E B
err e >>= rest = err e
ok value >>= rest = rest value

abbrev pub ◌>>◌ {ℓ} : {E B : Type ℓ} → Result E (Unit {ℓ}) → Result E B → Result E B
call >> rest = call >>= λ done. rest

-- A method that returns had a value from its first call, and returned from the rest with it.
pub >>=-eq-ok {ℓ} :
    {E A B : Type ℓ} (call : Result E A) (rest : A → Result E B) {result : B}
    → (call >>= rest) ≡ ok result
    → (value : A) × (call ≡ ok value) × (rest value ≡ ok result)
>>=-eq-ok (err e) rest raised_first = cc
>>=-eq-ok (ok value) rest returned = (value, refl, returned)

pub ok-injective {ℓ} : {E A : Type ℓ} {a b : A} → Path (Result E A) (ok a) (ok b) → a ≡ b
ok-injective h = cc

-- A method that returns passed its first guard.
pub raise_if-passes :
    {E : Type 0} {A : Type 0} (test : Bool) (e : E) (rest : Result E A) {result : A}
    → (raise_if test e >> rest) ≡ ok result
    → (test ≡ false) × (rest ≡ ok result)
raise_if-passes true e rest raised = cc
raise_if-passes false e rest returned = (refl, returned)

pub raise_if-ok : {E : Type 0} (test : Bool) (e : E) → raise_if test e ≡ ok tt → test ≡ false
raise_if-ok true e raised = cc
raise_if-ok false e returned = refl

-- The first call of two succeeded, and the second.
pub >>-eq-ok :
    {E A : Type 0} (call : Result E Unit) (rest : Result E A) {result : A}
    → (call >> rest) ≡ ok result
    → (call ≡ ok tt) × (rest ≡ ok result)
>>-eq-ok (err e) rest raised = cc
>>-eq-ok (ok tt) rest returned = (refl, returned)

-- A method whose guard passes, and that returns then, does not raise.
pub raise_if_returns :
    {E A : Type 0} (test : Bool) (e : E) (value : A) {x : E}
    → test ≡ false
    → (raise_if test e >> ok value) ≡ err x
    → ⊥
raise_if_returns true e value off raised = cc
raise_if_returns false e value off raised = cc
