-- ===== src/Outcome.antt =====
-- Exceptions as values: the error classes of include/neuralplus/types.hpp, the standard ones that the
-- program throws or meets, and the monad of code that may throw.
use neural_plus.Prelude.{ℤ, Bytes, ◌≡◌, refl, Bool, true, false}
use neural_plus.Types.Enums.{Provider}

pub data Error : Type 0 where
  configuration_error session_in_use_error max_rounds_error transport_error : Bytes → Error
  provider_error :
      (message : Bytes) (provider : Provider) (status : ℤ) (code request_id : Bytes) → Error
  base_error invalid_argument logic_error : Bytes → Error
  bad_any_cast json_exception : Error
  -- what a callback throws: a `std::exception`, or anything else
  application_error : Bytes → Error
  foreign : Error

-- Caught by `catch (const std::exception&)`.
abbrev pub is_std_exception : Error → Bool
is_std_exception foreign = false
is_std_exception _ = true

pub data Result {ℓ} (A : Type ℓ) : Type ℓ where
  -- what a function returns
  ok : A → Result A
  -- what it throws
  err : Error → Result A

-- `if (bad) throw e;`
abbrev pub throw_if : Bool → Error → Result (Unit {0})
throw_if true e = err e
throw_if false e = ok tt

pub throw_if-ok : (b : Bool) (e : Error) → throw_if b e ≡ ok tt → b ≡ false
throw_if-ok true e h = cc
throw_if-ok false e h = refl

-- A throw leaves the block.
infixl 5 ◌>>=◌ ◌>>◌
abbrev pub ◌>>=◌ {ℓ ℓ'} : {A : Type ℓ} {B : Type ℓ'} → Result A → (A → Result B) → Result B
err thrown >>= next = err thrown
ok value >>= next = next value

abbrev pub ◌>>◌ {ℓ} : {A : Type ℓ} → Result (Unit {0}) → Result A → Result A
first >> next = first >>= λ done. next

-- Inversion of a block that did not throw.
pub >>=-eq-ok {ℓ ℓ'} :
    {A : Type ℓ} {B : Type ℓ'} (r : Result A) (next : A → Result B) {result : B}
    → (r >>= next) ≡ ok result
    → (value : A) × (r ≡ ok value) × (next value ≡ ok result)
>>=-eq-ok (err thrown) next h = cc
>>=-eq-ok (ok value) next h = (value, refl, h)

pub >>-eq-ok {ℓ} :
    {A : Type ℓ} (m : Result (Unit {0})) (k : Result A) {b : A}
    → (m >> k) ≡ ok b
    → (m ≡ ok tt) × (k ≡ ok b)
>>-eq-ok (ok tt) k h = (refl, h)
>>-eq-ok (err e) k h = cc

-- `error.what()`. The texts of the exceptions that the libraries throw are a parameter.
unfoldable pub what : (Error → Bytes) → Error → Bytes
what library (configuration_error m) = m
what library (session_in_use_error m) = m
what library (max_rounds_error m) = m
what library (transport_error m) = m
what library (provider_error m p s c r) = m
what library (base_error m) = m
what library (invalid_argument m) = m
what library (logic_error m) = m
what library (application_error m) = m
what library e = library e
