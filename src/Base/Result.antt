-- ===== src/Base/Result.antt =====
-- Python functions that may raise: a result is a returned value or the exception.
use mathlib.Core.Path.{◌≡◌, refl}
use mathlib.Core.Bool.{Bool, true, false}
use mathlib.Core.Logic.{◌⊎◌, inl, inr}

pub data Result {ℓ κ} (E : Type ℓ) (A : Type κ) : Type (ℓ ⊔ κ) where
  ok : A → Result E A
  raise : E → Result E A

pub Result-cases {ℓ κ} :
    {E : Type ℓ} {A : Type κ} (r : Result E A) → ((a : A) × (r ≡ ok a)) ⊎ ((e : E) × (r ≡ raise e))
Result-cases (ok a) = inl (a, refl)
Result-cases (raise e) = inr (e, refl)

-- `if b: raise e`
abbrev pub raise_if {ℓ} : {E : Type ℓ} → Bool → E → Result E (Unit {0})
raise_if false e = ok tt
raise_if true e = raise e

infixl 5 ◌>>=◌ ◌>>◌
abbrev pub ◌>>=◌ {ℓ κ λ'} :
    {E : Type ℓ} {A : Type κ} {B : Type λ'} → Result E A → (A → Result E B) → Result E B
raise e >>= next = raise e
ok a >>= next = next a

-- A bind that returned: both parts did.
pub >>=-eq-ok {ℓ κ λ'} :
    {E : Type ℓ} {A : Type κ} {B : Type λ'} (step : Result E A) (next : A → Result E B) {r : B}
    → (step >>= next) ≡ ok r
    → (v : A) × (step ≡ ok v) × (next v ≡ ok r)
>>=-eq-ok (raise e) next returned = cc
>>=-eq-ok (ok v) next returned = (v, refl, returned)

-- A step that only checks.
abbrev pub ◌>>◌ {ℓ κ λ'} :
    {E : Type ℓ} {A : Type κ} {B : Type λ'} → Result E A → Result E B → Result E B
check >> next = check >>= λ _. next

-- A check that was passed.
pub raise_if-eq-ok {ℓ κ} :
    {E : Type ℓ} {B : Type κ} (b : Bool) (e : E) (next : Result E B) {r : B}
    → (raise_if b e >> next) ≡ ok r
    → (b ≡ false) × (next ≡ ok r)
raise_if-eq-ok true e next returned = cc
raise_if-eq-ok false e next returned = (refl, returned)

-- The same, of a last check.
pub raise_if-ok {ℓ} :
    {E : Type ℓ} (b : Bool) (e : E) {u : Unit {0}} → raise_if b e ≡ ok u → b ≡ false
raise_if-ok true e returned = cc
raise_if-ok false e returned = refl
