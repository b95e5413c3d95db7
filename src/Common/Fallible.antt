-- ===== src/Common/Fallible.antt =====
-- A call that can fail: a value, or an error of the taxonomy of pkg/errs.
use Prim.Native.String.{String}
use mathlib.Core.Path.{◌≡◌, refl}
use mathlib.Core.Logic.{◌⊎◌, inl, inr}
use mathlib.Core.Bool.{Bool, true, false}

-- The failure categories of pkg/errs.
pub data Kind : Type 0 where
  internal invalid_argument not_found already_exists permission_denied unauthenticated : Kind
  failed_precondition conflict resource_exhausted unavailable deadline_exceeded : Kind

pub record Error : Type 0 where
  pub kind : Kind
  pub reason : String

-- `errs.New`, without the text for people.
abbrev pub new_error : Kind → String → Error
new_error k r = record { kind = k; reason = r }

pub data Outcome {ℓ} (A : Type ℓ) : Type ℓ where
  ok : A → Outcome A
  err : Error → Outcome A

infixl 5 ◌>>=◌ ◌>>◌
-- `x, err := …; if err != nil { return err }`.
abbrev pub ◌>>=◌ {ℓ κ} : {X : Type ℓ} {Y : Type κ} → Outcome X → (X → Outcome Y) → Outcome Y
err failure >>= next = err failure
ok value >>= next = next value

-- `if err := …; err != nil { return err }`.
abbrev pub ◌>>◌ {ℓ} : {Y : Type ℓ} → Outcome (Unit {0}) → Outcome Y → Outcome Y
check >> next = check >>= λ _. next

-- `if bad { return err }`.
abbrev pub reject_if : Bool → Error → Outcome (Unit {0})
reject_if true e = err e
reject_if false e = ok tt

-- A sequence that succeeds ran its first call, and that call succeeded.
pub >>=-eq-ok {ℓ κ} :
    {X : Type ℓ} {Y : Type κ} (first : Outcome X) (next : X → Outcome Y) {y : Y}
    → (first >>= next) ≡ ok y
    → (x : X) × (first ≡ ok x) × (next x ≡ ok y)
>>=-eq-ok (err failure) next succeeds = cc
>>=-eq-ok (ok value) next succeeds = (value, refl, succeeds)

pub Outcome-cases {ℓ} :
    {A : Type ℓ} (o : Outcome A) → ((a : A) × (o ≡ ok a)) ⊎ ((e : Error) × (o ≡ err e))
Outcome-cases (ok a) = inl (a, refl)
Outcome-cases (err e) = inr (e, refl)
