-- ===== src/Base/Decimal.antt =====
-- Numbers printed in decimal, as by the verb %d and strconv.Itoa.
use Prim.Native.Nat.{ℕ, zero, suc, ◌+◌, ◌/◌, ◌%◌}
use mathlib.Core.List.{[], ◌∷◌}
use gorouter.Base.Tests.{◌==◌, if◌then◌else◌}
use gorouter.Base.Texts.{Text}

-- The digits of `n` before those in `acc`; there are fewer than `n + 1` of them.
unfoldable pub itoa_loop : ℕ → ℕ → Text → Text
itoa_loop zero n acc = acc
itoa_loop (suc k) n acc =
    let digit = b'0' + n % 10 in
    let rest = itoa_loop k (n / 10) (digit ∷ acc) in if n / 10 == 0 then digit ∷ acc else rest

unfoldable pub itoa : ℕ → Text
itoa n = itoa_loop (suc n) n []
