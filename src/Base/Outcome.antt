-- ===== src/Base/Outcome.antt =====
-- The outcome of an operation that may end the program.
use mathlib.Core.Path.{◌≡◌, refl}
use mathlib.Core.Logic.{◌≢◌}
use mathlib.Core.List.{List}
use Prim.Native.Nat.{ℕ}

-- `fail` is an `os_fail` after the given text went to the error stream. `out_of_fuel` belongs to
-- the model only.
pub data Result {ℓ} (A : Type ℓ) : Type ℓ where
  ok : A → Result A
  fail : List ℕ → Result A
  out_of_fuel : Result A

module _ {ℓ κ} {A : Type ℓ} {B : Type κ} where
  infixl 5 ◌>>=◌
  abbrev pub ◌>>=◌ : Result A → (A → Result B) → Result B
  out_of_fuel >>= k = out_of_fuel
  fail text >>= k = fail text
  ok x >>= k = k x

  -- The first result of a chain that ends well, and how the chain goes on from it.
  pub >>=-eq-ok :
      (r : Result A) (k : A → Result B) {y : B}
      → (r >>= k) ≡ ok y
      → (x : A) × (r ≡ ok x) × (k x ≡ ok y)
  >>=-eq-ok out_of_fuel k e = cc
  >>=-eq-ok (fail text) k e = cc
  >>=-eq-ok (ok x) k e = (x, refl, e)

  -- A chain that does not run out of fuel, by its parts.
  pub >>=-ne-out_of_fuel :
      (r : Result A) (k : A → Result B)
      → r ≢ out_of_fuel
      → ((x : A) → r ≡ ok x → k x ≢ out_of_fuel)
      → (r >>= k) ≢ out_of_fuel
  >>=-ne-out_of_fuel out_of_fuel k h g = λ e. h refl
  >>=-ne-out_of_fuel (fail text) k h g = λ e. cc
  >>=-ne-out_of_fuel (ok x) k h g = g x refl

  pub >>=_same :
      (r : Result A) (k k' : A → Result B) → ((x : A) → k x ≡ k' x) → (r >>= k) ≡ (r >>= k')
  >>=_same out_of_fuel k k' h = refl
  >>=_same (fail text) k k' h = refl
  >>=_same (ok x) k k' h = h x

pub >>=_assoc {ℓ κ μ} :
    {A : Type ℓ} {B : Type κ} {C : Type μ} (r : Result A) (k : A → Result B) (next : B → Result C)
    → ((r >>= k) >>= next) ≡ (r >>= λ x. k x >>= next)
>>=_assoc out_of_fuel k next = refl
>>=_assoc (fail text) k next = refl
>>=_assoc (ok x) k next = refl
