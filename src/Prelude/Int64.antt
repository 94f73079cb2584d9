-- ===== src/Prelude/Int64.antt =====
-- The arithmetic of Go's 64-bit `int`, which wraps around.
use Prim.Native.Nat.{◌-◌, ◌%◌, ◌^◌}
use identity_attack_graph.Prelude.Tests.{ltb, if◌then◌else◌}
use identity_attack_graph.Prelude.Int.{ℤ, pos, negsuc, ◌+ℤ◌, ◌-ℤ◌, ◌*ℤ◌}

unfoldable pub wrap : ℤ → ℤ
wrap (pos n) = let r = n % 2 ^ 64 in if ltb r (2 ^ 63) then pos r else negsuc (2 ^ 64 - 1 - r)
wrap (negsuc n) = let r = n % 2 ^ 64 in if ltb r (2 ^ 63) then negsuc r else pos (2 ^ 64 - 1 - r)

infixl 65 ◌+₆₄◌ ◌-₆₄◌
infixl 70 ◌*₆₄◌
unfoldable pub ◌+₆₄◌ : ℤ → ℤ → ℤ
unfolding wrap ◌+ℤ◌
a +₆₄ b = wrap (a +ℤ b)

unfoldable pub ◌-₆₄◌ : ℤ → ℤ → ℤ
unfolding wrap ◌-ℤ◌
a -₆₄ b = wrap (a -ℤ b)

unfoldable pub ◌*₆₄◌ : ℤ → ℤ → ℤ
unfolding wrap ◌*ℤ◌
a *₆₄ b = wrap (a *ℤ b)
