-- ===== src/Prelude/Panic.antt =====
-- Code that may panic: `none` is the panic.
use mathlib.Core.Bool.{Bool, true, false}
use mathlib.Core.Option.{Option, none, some}

infixl 5 ◌>>=◌ ◌>>◌
abbrev pub ◌>>=◌ {ℓ κ} : {A : Type ℓ} {B : Type κ} → Option A → (A → Option B) → Option B
none >>= f = none
some a >>= f = f a

abbrev pub ◌>>◌ {ℓ} : {B : Type ℓ} → Option (Unit {0}) → Option B → Option B
none >> k = none
some a >> k = k

-- `assert!`, and `debug_assert!` with debug assertions on
abbrev pub assert : Bool → Option (Unit {0})
assert true = some tt
assert false = none
