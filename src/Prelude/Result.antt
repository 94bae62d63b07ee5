-- ===== src/Prelude/Result.antt =====
-- `Result<A, E>` with `?`, for readers that recur on fuel. `out_of_fuel` is no value of the program.
use mathlib.Core.Path.{◌≡◌, refl}
use mathlib.Core.Logic.{◌≢◌}
use mathlib.Core.Bool.{Bool, true, false}
use acetone.Prelude.Tests.{if◌then◌else◌}

pub data Result {ℓ κ} (E : Type ℓ) (A : Type κ) : Type (ℓ ⊔ κ) where
  ok : A → Result E A
  err : E → Result E A
  out_of_fuel : Result E A

infixl 5 ◌>>=◌ ◌>>◌
abbrev pub ◌>>=◌ {ℓ κ μ} :
    {E : Type ℓ} {A : Type κ} {B : Type μ} → Result E A → (A → Result E B) → Result E B
out_of_fuel >>= next = out_of_fuel
err error >>= next = err error
ok value >>= next = next value

abbrev pub ◌>>◌ {ℓ κ} : {E : Type ℓ} {B : Type κ} → Result E (Unit {0}) → Result E B → Result E B
test >> next = test >>= λ _. next

-- `if !test { return Err(error) }`
abbrev pub ensure {ℓ} : {E : Type ℓ} → Bool → E → Result E (Unit {0})
ensure false error = err error
ensure true error = ok tt

-- `if test { return Err(error) }`
abbrev pub refuse {ℓ} : {E : Type ℓ} → Bool → E → Result E (Unit {0})
refuse false error = ok tt
refuse true error = err error

-- Where a `?` went on, and the whole came to a value: the first value, and how each part came to its own.
pub bind_parts {ℓ κ μ} :
    {E : Type ℓ} {A : Type κ} {B : Type μ} {result : B} (first : Result E A) (next : A → Result E B)
    → (first >>= next) ≡ ok result
    → (value : A) × (first ≡ ok value) × (next value ≡ ok result)
bind_parts out_of_fuel next e = cc
bind_parts (err error) next e = cc
bind_parts (ok value) next e = (value, refl, e)

-- A test that was passed on the way to a value.
pub ensure_passed {ℓ κ} :
    {E : Type ℓ} {B : Type κ} (test : Bool) (error : E) (next : Result E B) (result : B)
    → (ensure test error >> next) ≡ ok result
    → (test ≡ true) × (next ≡ ok result)
ensure_passed true error next result e = (refl, e)
ensure_passed false error next result e = cc

pub refuse_passed {ℓ κ} :
    {E : Type ℓ} {B : Type κ} (test : Bool) (error : E) (next : Result E B) (result : B)
    → (refuse test error >> next) ≡ ok result
    → (test ≡ false) × (next ≡ ok result)
refuse_passed false error next result e = (refl, e)
refuse_passed true error next result e = cc

-- A chain runs out of fuel nowhere if no link does.
pub bind_runs {ℓ κ μ} :
    {E : Type ℓ} {A : Type κ} {B : Type μ} (first : Result E A) (next : A → Result E B)
    → first ≢ out_of_fuel
    → ((value : A) → first ≡ ok value → next value ≢ out_of_fuel)
    → (first >>= next) ≢ out_of_fuel
bind_runs (ok value) next runs go = go value refl
bind_runs (err error) next runs go = λ e. cc
bind_runs out_of_fuel next runs go = λ e. runs refl

pub if_runs {ℓ κ} :
    {E : Type ℓ} {A : Type κ} (test : Bool) (first second : Result E A)
    → (test ≡ true → first ≢ out_of_fuel)
    → (test ≡ false → second ≢ out_of_fuel)
    → (if test then first else second) ≢ out_of_fuel
if_runs true first second hy hn = hy refl
if_runs false first second hy hn = hn refl

pub refuse_runs {ℓ κ} :
    {E : Type ℓ} {A : Type κ} (test : Bool) (error : E) (next : Result E A)
    → next ≢ out_of_fuel
    → (refuse test error >> next) ≢ out_of_fuel
refuse_runs true error next runs = λ e. cc
refuse_runs false error next runs = runs
