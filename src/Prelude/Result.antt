-- ===== src/Prelude/Result.antt =====
-- Python's exceptions as values: a pure call returns a `Result`, a call that changes state is an
-- `Exec`, whose state comes back beside the exception too.
use mathlib.Core.Bool.{Bool, true, false}

-- `blocked` is no exception: the call waits for something that never arrives.
pub data Error : Type 0 where
  assertion_error attribute_error configuration_error connection_error index_error key_error
        memory_error :
      Error
  name_error os_error overflow_error rpc_error safety_check_error system_exit type_error value_error
        blocked :
      Error

pub data Result {ℓ} (A : Type ℓ) : Type ℓ where
  ok : A → Result A
  err : Error → Result A

-- `if not test: raise e`
abbrev pub guard : Bool → Error → Result (Unit {0})
guard false e = err e
guard true _ = ok tt

module _ {ℓ κ} {A : Type ℓ} {B : Type κ} where
  infixl 5 ◌>>=◌
  abbrev pub ◌>>=◌ : Result A → (A → Result B) → Result B
  err e >>= next = err e
  ok a >>= next = next a

module _ {κ} {B : Type κ} where
  infixl 5 ◌>>◌
  abbrev pub ◌>>◌ : Result (Unit {0}) → Result B → Result B
  first >> second = first >>= λ _. second
