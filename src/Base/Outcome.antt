-- ===== src/Base/Outcome.antt =====
-- How a call ends: it returns, it accesses memory that is not there, the process exits, or the
-- rounds that the model grants to a loop are used up.
use mathlib.Core.Path.{◌≡◌, refl, ap}
use mathlib.Core.Bool.{Bool, true, false}
use lidas.Base.Tests.{if◌then◌else◌}
use mathlib.Core.Option.{Option, none, some}

pub data Run {ℓ} (A : Type ℓ) : Type ℓ where
  ok : A → Run A
  fault : Run A
  exited : Run A
  out_of_fuel : Run A

infixl 5 ◌>>=◌ ◌>>◌
abbrev pub ◌>>=◌ {ℓ μ} : {A : Type ℓ} {C : Type μ} (m : Run A) (next : A → Run C) → Run C
fault >>= next = fault
exited >>= next = exited
out_of_fuel >>= next = out_of_fuel
ok value >>= next = next value

abbrev pub ◌>>◌ {ℓ} : {B : Type ℓ} → Run (Unit {0}) → Run B → Run B
m >> k = m >>= λ _. k

abbrev pub or_fault {ℓ} : {A : Type ℓ} → Option A → Run A
or_fault (some a) = ok a
or_fault none = fault

-- `int` results that are only ever tested against 0: 0 itself, and -1 or another error code.
pub data Status : Type 0 where
  success : Status
  failure : Status

abbrev pub is_success : Status → Bool
is_success success = true
is_success failure = false

-- The run returns a good value: no fault, no exit, enough rounds.
pub data Returns {ℓ κ} {A : Type ℓ} (Good : A → Type κ) : Run A → Type (κ ⊔ ℓ) where
  returns : {value : A} → Good value → Returns Good (ok value)

pub Returns-inv {ℓ κ} :
    {A : Type ℓ} {Good : A → Type κ} {m : Run A}
    → Returns Good m
    → (value : A) × (m ≡ ok value) × Good value
Returns-inv (returns {value} good) = (value, refl, good)

pub Returns-map {ℓ κ μ} :
    {A : Type ℓ} {Good : A → Type κ} {Better : A → Type μ} {m : Run A}
    → Returns Good m
    → ((value : A) → Good value → Better value)
    → Returns Better m
Returns-map (returns {value} good) improve = returns (improve value good)

pub Returns-bind {ℓ κ ν μ} :
    {A : Type ℓ} {C : Type ν} {Good : A → Type κ} {Result : C → Type μ} {m : Run A}
    {next : A → Run C}
    → Returns Good m
    → ((value : A) → Good value → Returns Result (next value))
    → Returns Result (m >>= next)
Returns-bind (returns {value} good) after = after value good

-- Runs of one call with equal continuations.
pub bind-eq {ℓ κ} :
    {A : Type ℓ} {B : Type κ} (m : Run A) (f g : A → Run B)
    → ((a : A) → f a ≡ g a)
    → (m >>= f) ≡ (m >>= g)
bind-eq (ok a) f g h = h a
bind-eq fault f g h = refl
bind-eq exited f g h = refl
bind-eq out_of_fuel f g h = refl

pub bind_assoc {ℓ κ μ} :
    {A : Type ℓ} {B : Type κ} {C : Type μ} (m : Run A) (f : A → Run B) (g : B → Run C)
    → (m >>= λ a. f a >>= g) ≡ (m >>= f >>= g)
bind_assoc (ok a) f g = refl
bind_assoc fault f g = refl
bind_assoc exited f g = refl
bind_assoc out_of_fuel f g = refl

pub ok-inj {ℓ} : {A : Type ℓ} (a b : A) → ok a ≡ ok b → a ≡ b
ok-inj a b e = ap (λ r. elim r [ ok x ↦ x | fault ↦ a | exited ↦ a | out_of_fuel ↦ a ]) e

pub fault-ne_ok {ℓ} : {A : Type ℓ} {a : A} → fault ≡ ok a → ⊥
fault-ne_ok e = cc

pub exited-ne_ok {ℓ} : {A : Type ℓ} {a : A} → exited ≡ ok a → ⊥
exited-ne_ok e = cc

pub out_of_fuel-ne_ok {ℓ} : {A : Type ℓ} {a : A} → out_of_fuel ≡ ok a → ⊥
out_of_fuel-ne_ok e = cc

-- What returns returns in both its parts.
pub bind-ok {ℓ κ} :
    {A : Type ℓ} {B : Type κ} (m : Run A) (f : A → Run B) (b : B)
    → (m >>= f) ≡ ok b
    → (a : A) × (m ≡ ok a) × (f a ≡ ok b)
bind-ok (ok a) f b e = (a, refl, e)
bind-ok fault f b e = absurd (fault-ne_ok e)
bind-ok exited f b e = absurd (exited-ne_ok e)
bind-ok out_of_fuel f b e = absurd (out_of_fuel-ne_ok e)

-- What the run returns, if it returns, has `P`.
pub record IfOk {ℓ κ} {A : Type ℓ} (P : A → Type κ) (m : Run A) : Type (ℓ ⊔ κ) where
  pub holds : (a : A) → m ≡ ok a → P a

module _ {ℓ κ} {A : Type ℓ} {P : A → Type κ} where
  pub IfOk-ok : {a : A} → P a → IfOk P (ok a)
  IfOk-ok p = record { holds = λ b e. rw⁻¹ (ok-inj _ b e) p }

  pub IfOk-fault : IfOk P fault
  IfOk-fault = record { holds = λ b e. absurd (fault-ne_ok e) }

  pub IfOk-bind {ℓ'} :
      {B : Type ℓ'} (m : Run B) (f : B → Run A) → ((b : B) → IfOk P (f b)) → IfOk P (m >>= f)
  IfOk-bind m f h = record { holds = λ a e. let (b, e1, e2) = bind-ok m f a e in (h b).holds a e2 }

-- the run comes to an end, be it a fault
abbrev pub Ends {ℓ} : {A : Type ℓ} → Run A → Type 0
Ends (ok a) = Unit
Ends fault = Unit
Ends exited = Unit
Ends out_of_fuel = ⊥

pub Ends-bind {ℓ κ} :
    {A : Type ℓ} {B : Type κ} (m : Run A) (f : A → Run B)
    → Ends m
    → ((a : A) → Ends (f a))
    → Ends (m >>= f)
Ends-bind (ok a) f e g = g a
Ends-bind fault f e g = tt
Ends-bind exited f e g = tt
Ends-bind out_of_fuel f e g = e

pub Ends-or_fault {ℓ} : {A : Type ℓ} (o : Option A) → Ends (or_fault o)
Ends-or_fault (some a) = tt
Ends-or_fault none = tt

pub Ends-if {ℓ} :
    {A : Type ℓ} (b : Bool) (x y : Run A) → Ends x → Ends y → Ends (if b then x else y)
Ends-if true x y p q = p
Ends-if false x y p q = q
