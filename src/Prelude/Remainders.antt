-- ===== src/Prelude/Remainders.antt =====
-- Remainders by an unknown, as the rings use them.
use native.Mathlib.Nat.{
  mod-add-mod, mod-lt, mod-eq_of_lt, mod-eq-sub-mod, mod-eq-zero_of_dvd, dvd-mul_right, div-add-mod,
}
use Prim.Native.Nat.{ℕ, ◌+◌, ◌-◌, ◌/◌, ◌%◌, ◌<◌}
use mathlib.Core.Path.{◌≡◌, ◌∙◌, ap}
use mathlib.Core.Logic.{◌≢◌}
use native.Mathlib.Decide.{dec_lt}
use native.Mathlib.Omega.{arith}

pub add-mod-ne : (n a d : ℕ) → 0 < d → d < n → (a + d) % n ≢ a % n
add-mod-ne n a d pos small e = elim (dec_lt (a % n + d) n) [
  | yes p ↦ omega (arith, e, mod-add-mod a n d, mod-eq_of_lt p)
  | no p ↦ omega (
    arith,
    e,
    mod-add-mod a n d,
    mod-lt a {m = n} (omega arith),
    mod-eq-sub-mod {n = a % n + d} {m = n} (omega arith),
    mod-eq_of_lt {n = a % n + d - n} {m = n} (omega (arith, mod-lt a {m = n} (omega arith))),
  )
]

pub sub-mod-mod : (a n : ℕ) → (a - a % n) % n ≡ 0
sub-mod-mod a n =
    ap (λ k. k % n) (omega (arith, div-add-mod a n))
    ∙ mod-eq-zero_of_dvd n (dvd-mul_right n (a / n))
