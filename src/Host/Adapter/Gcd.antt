-- ===== src/Host/Adapter/Gcd.antt =====
-- `greatest_common_divisor` of crates/riaps-host/src/adapter_buf.rs.
use Prim.Native.Nat.{◌∣◌}
use mathlib.Core.WellFounded.{Acc}
use native.Mathlib.Nat.{dvd-mod_iff, dvd-zero, dvd_refl, le_of_dvd, pos_of_dvd_of_pos}
use blockcat.Prelude.{ℕ, ◌%◌, ◌≤◌, ◌<◌, ◌≡◌, ◌↔◌, arith, lt_wf, dec_lt, subst}
use mathlib.Core.Logic.{dite}
use blockcat.Host.Adapter.{gcd_loop, greatest_common_divisor}

-- The result divides `left` and `right`, and so does exactly what divides the result.
gcd_loop-dvd :
    (left right : ℕ) (w : Acc ◌<◌ right) (e : ℕ)
    → (e ∣ gcd_loop left right w) ↔ ((e ∣ left) × (e ∣ right))
unfolding gcd_loop
gcd_loop-dvd left right (Acc.intro _ smaller) e =
    elim (dec_lt 0 right)
      as (λ t.
        (e
          ∣ dite t (λ h. gcd_loop right (left % right) (smaller (left % right) (omega arith)))
              (λ _. left))
        ↔ ((e ∣ left) × (e ∣ right))) [
          | yes p ↦
              let ih = gcd_loop-dvd right (left % right) (smaller (left % right) (omega arith)) e in
              (
                λ h. ((dvd-mod_iff e (ih.0 h).0).0 (ih.0 h).1, (ih.0 h).0),
                λ h. ih.1 (h.1, (dvd-mod_iff e h.1).1 h.0),
              )
          | no p ↦
              let end : 0 ≡ right = omega arith in
              (λ h. (h, subst (λ k. e ∣ k) end (dvd-zero e)), λ h. h.0)
        ]

-- A number divides the result of `greatest_common_divisor` exactly when it divides both arguments.
pub dvd-greatest_common_divisor_iff :
    (left right e : ℕ) → (e ∣ greatest_common_divisor left right) ↔ ((e ∣ left) × (e ∣ right))
unfolding greatest_common_divisor
dvd-greatest_common_divisor_iff left right e = gcd_loop-dvd left right (lt_wf.apply right) e

-- The bounds that the adapter relies on.
pub gcd_bounds :
    (h d : ℕ) → 0 < d → (0 < greatest_common_divisor h d) × (greatest_common_divisor h d ≤ d)
gcd_bounds h d pos =
    let divides =
      (dvd-greatest_common_divisor_iff h d (greatest_common_divisor h d)).0 (dvd_refl _) in
    (pos_of_dvd_of_pos divides.1 pos, le_of_dvd pos divides.1)
