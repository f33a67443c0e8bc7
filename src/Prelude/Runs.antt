-- ===== src/Prelude/Runs.antt =====
-- Runs of C code. `fault` is undefined behaviour that the model stops at.
use mathlib.Core.Bool.{Bool, true, false}
use mathlib.Core.Path.{◌≡◌, refl}
use orb_weaver.Prelude.Tests.{if◌then◌else◌}

pub data Fault : Type 0 where
  null_dereference out_of_bounds use_after_free invalid_free out_of_fuel : Fault

pub data Run {ℓ} (A : Type ℓ) : Type ℓ where
  fault : Fault → Run A
  ok : A → Run A

-- Whatever the run returns satisfies `P`.
abbrev pub Ensures {ℓ κ} : {A : Type ℓ} → (A → Type κ) → Run A → Type κ
Ensures P (ok a) = P a
Ensures P (fault _) = Unit

-- The run ends without a fault, in a value that satisfies `P`.
abbrev pub Returns {ℓ κ} : {R : Type ℓ} → Run R → (R → Type κ) → Type (ℓ ⊔ κ)
Returns {R} run Good = (result : R) × (run ≡ ok result) × Good result

infixl 5 ◌>>=◌ ◌>>◌
abbrev pub ◌>>=◌ {ℓ κ} : {R : Type ℓ} {S : Type κ} → Run R → (R → Run S) → Run S
fault why >>= next = fault why
ok result >>= next = next result

abbrev pub ◌>>◌ {ℓ} : {B : Type ℓ} → Run (Unit {0}) → Run B → Run B
m >> k = m >>= λ _. k

pub Ensures-bind {ℓ κ ι} :
    {A : Type ℓ} {B : Type κ} (P : B → Type ι) (m : Run A) (f : A → Run B)
    → ((a : A) → m ≡ ok a → Ensures P (f a))
    → Ensures P (m >>= f)
Ensures-bind P (ok a) f h = h a refl
Ensures-bind P (fault e) f h = tt

pub Ensures-if {ℓ κ} :
    {A : Type ℓ} (P : A → Type κ) (b : Bool) (x y : Run A)
    → (b ≡ true → Ensures P x)
    → (b ≡ false → Ensures P y)
    → Ensures P (if b then x else y)
Ensures-if P true x y yea nay = yea refl
Ensures-if P false x y yea nay = nay refl

-- A run whose rest goes on in two parts.
pub bind_assoc_of {ℓ κ ι} :
    {A : Type ℓ} {B : Type κ} {C : Type ι} (m : Run A) (f : A → Run C) (g : A → Run B)
    (k : B → Run C)
    → ((a : A) → f a ≡ (g a >>= k))
    → (m >>= f) ≡ ((m >>= g) >>= k)
bind_assoc_of (ok a) f g k h = h a
bind_assoc_of (fault why) f g k h = refl
