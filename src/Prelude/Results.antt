-- ===== src/Prelude/Results.antt =====
-- Go's pair of a value and an error: a call that returns `err e` returns no value.
use mathlib.Core.Bool.{Bool, true, false}
use mathlib.Core.Option.{Option, none, some}

pub data Result {ℓ} (E A : Type ℓ) : Type ℓ where
  ok : A → Result E A
  err : E → Result E A

-- `if bad { return e }`
abbrev pub reject_if : {E : Type 0} → Bool → E → Result E (Unit {0})
reject_if true e = err e
reject_if false e = ok tt

module _ {E A : Type 0} where
  -- a lookup whose miss is the error
  abbrev pub or_err : Option A → E → Result E A
  or_err none e = err e
  or_err (some a) e = ok a

  -- what is left where the source drops the error
  abbrev pub ignore : Result E A → Option A
  ignore (ok a) = some a
  ignore (err e) = none

  -- `%w` and the like: another error in place of the callee's
  abbrev pub map_err : {F : Type 0} → (E → F) → Result E A → Result F A
  map_err f (ok a) = ok a
  map_err f (err e) = err (f e)

-- `if err != nil { return err }` behind a call
module _ {E A B : Type 0} where
  infixl 10 ◌>>=◌ ◌>>◌
  abbrev pub ◌>>=◌ : Result E A → (A → Result E B) → Result E B
  ◌>>=◌ (err e) next = err e
  ◌>>=◌ (ok a) next = next a

  abbrev pub ◌>>◌ : Result E A → Result E B → Result E B
  first >> next = first >>= λ _. next
