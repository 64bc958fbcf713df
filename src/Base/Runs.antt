-- ===== src/Base/Runs.antt =====
-- What a run of C code does: it returns, it touches memory that it does not own, or it has not ended
-- on the fuel that its loops were given.
use mathlib.Core.Path.{◌≡◌, refl}
use mathlib.Core.Option.{Option, none, some}

pub data Outcome {ℓ} (A : Type ℓ) : Type ℓ where
  done : A → Outcome A
  fault : Outcome A
  unended : Outcome A

infixl 5 ◌>>=◌
abbrev pub ◌>>=◌ {ℓ κ} : {A : Type ℓ} {B : Type κ} → Outcome A → (A → Outcome B) → Outcome B
done a >>= f = f a
fault >>= f = fault
unended >>= f = unended

-- A checked access: `none` is an address outside the region.
abbrev pub checked {ℓ} : {A : Type ℓ} → Option A → Outcome A
checked none = fault
checked (some a) = done a

-- Inversion of a run that returns.
pub >>=-eq-done {ℓ κ} :
    {A : Type ℓ} {B : Type κ} (m : Outcome A) (f : A → Outcome B) {b : B}
    → (m >>= f) ≡ done b
    → (a : A) × (m ≡ done a) × (f a ≡ done b)
>>=-eq-done (done a) f h = (a, refl, h)
>>=-eq-done fault f h = cc
>>=-eq-done unended f h = cc

-- A result on fuel as a run.
abbrev pub within_fuel {ℓ} : {A : Type ℓ} → Option A → Outcome A
within_fuel none = unended
within_fuel (some a) = done a

pub done-injective {ℓ} : {A : Type ℓ} {a b : A} → done a ≡ done b → a ≡ b
done-injective h = cc

-- Two runs that go on in the same way.
pub >>=-eq {ℓ κ} :
    {A : Type ℓ} {B : Type κ} (m : Outcome A) (f g : A → Outcome B)
    → ((a : A) → f a ≡ g a)
    → (m >>= f) ≡ (m >>= g)
>>=-eq (done a) f g h = h a
>>=-eq fault f g h = refl
>>=-eq unended f g h = refl

pub within_fuel-done {ℓ} : {A : Type ℓ} (o : Option A) {a : A} → within_fuel o ≡ done a → o ≡ some a
within_fuel-done none h = cc
within_fuel-done (some x) h = cc
