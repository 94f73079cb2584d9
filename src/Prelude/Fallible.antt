-- ===== src/Prelude/Fallible.antt =====
-- Go's `if err != nil { return err }` on a call whose error is not told apart.
use mathlib.Core.Option.{Option, some, none}

infixl 5 ◌>>=◌
abbrev pub ◌>>=◌ {ℓ κ} : {A : Type ℓ} {B : Type κ} → Option A → (A → Option B) → Option B
none >>= f = none
some a >>= f = f a
