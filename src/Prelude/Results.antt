-- ===== src/Prelude/Results.antt =====
-- Results of Go functions that return `(T, error)`, and the chains of such calls.
use mathlib.Core.Path.{◌≡◌, refl}
use mathlib.Core.Logic.{◌⊎◌, inl, inr}
use mathlib.Core.Bool.{Bool, true, false}

pub data Result {ℓ κ} (E : Type ℓ) (A : Type κ) : Type (ℓ ⊔ κ) where
  ok : A → Result E A
  err : E → Result E A

-- `x, err := m; if err != nil { return err }`, and the rest of the body.
infixl 6 ◌>>=◌ ◌>>◌
abbrev pub ◌>>=◌ {ℓ κ μ} :
    {E : Type ℓ} {A : Type κ} {B : Type μ} → Result E A → (A → Result E B) → Result E B
◌>>=◌ (err failure) rest = err failure
◌>>=◌ (ok value) rest = rest value

abbrev pub ◌>>◌ {ℓ μ} : {E : Type ℓ} {B : Type μ} → Result E (Unit {0}) → Result E B → Result E B
◌>>◌ (err failure) rest = err failure
◌>>◌ (ok _) rest = rest

-- `if bad { return err }`
abbrev pub reject_if {ℓ} : {E : Type ℓ} → Bool → E → Result E (Unit {0})
reject_if true e = err e
reject_if false e = ok tt

module _ {ℓ κ} {E : Type ℓ} {B : Type κ} where
  -- A body that succeeds has passed each of its calls.
  pub >>=-eq-ok {μ} :
      {A : Type μ} (call : Result E A) (rest : A → Result E B) {result : B}
      → (call >>= rest) ≡ ok result
      → (value : A) × (call ≡ ok value) × (rest value ≡ ok result)
  >>=-eq-ok (err failure) rest passed = cc
  >>=-eq-ok (ok value) rest passed = (value, refl, passed)

  pub >>-eq-ok :
      (check : Result E (Unit {0})) (rest : Result E B) {result : B}
      → (check >> rest) ≡ ok result
      → (check ≡ ok tt) × (rest ≡ ok result)
  >>-eq-ok (err failure) rest passed = cc
  >>-eq-ok (ok tt) rest passed = (refl, passed)

pub reject_if-eq-ok {ℓ} : {E : Type ℓ} (t : Bool) (e : E) → reject_if t e ≡ ok tt → t ≡ false
reject_if-eq-ok true e h = cc
reject_if-eq-ok false e h = refl

pub Result-cases {ℓ κ} :
    {E : Type ℓ} {A : Type κ} (r : Result E A)
    → ((value : A) × (r ≡ ok value)) ⊎ ((failure : E) × (r ≡ err failure))
Result-cases (err failure) = inr (failure, refl)
Result-cases (ok value) = inl (value, refl)
