-- ===== src/Host/Timing/Reserve.antt =====
-- The reserve of silence that crates/riaps-host/src/adapter_buf.rs establishes is enough for the
-- block size of the host, at the first block and after each change of the size.
use Prim.Native.Nat.{◌∣◌}
use native.Mathlib.Nat.{dvd-zero, dvd_refl, one-dvd}
use blockcat.Prelude.{
  ℕ, ◌+◌, ◌-◌, ◌≤◌, ◌<◌, ◌≡◌, ◌≢◌, ◌∙◌, refl, sym, subst, arith, Option, none, some, ◌++◌, length,
  replicate, length-append, length-replicate, ℕ_discrete, ap,
}
use blockcat.Host.Blocks.{View, reserve, missing, next_quantum}
use blockcat.Host.Adapter.{greatest_common_divisor}
use blockcat.Host.Adapter.Gcd.{dvd-greatest_common_divisor_iff, gcd_bounds}
use blockcat.Host.Timing.{IsBalanced}

pub reserve_first : (d h : ℕ) → 0 < h → reserve d none h ≡ some (d - greatest_common_divisor h d)
unfolding reserve
reserve_first d h pos = ground arith

pub reserve_same : (d h : ℕ) → 0 < h → reserve d (some h) h ≡ none
unfolding reserve
reserve_same d h pos = ground arith

reserve_changed : (d p h : ℕ) → 0 < h → p ≢ h → reserve d (some p) h ≡ some (d - 1)
unfolding reserve
reserve_changed d p h pos ne = ground arith

module _ {ℓ κ} {A : Type ℓ} {S : Type κ} where
  -- Between two calls: nothing is held before the first block; after a block of `p` samples the
  -- queues are balanced for blocks of that size, and hold less than two blocks.
  abbrev pub HoldsReserve : ℕ → Option ℕ → View A S → Type 0
  HoldsReserve d none v =
      (length v.input ≡ 0) × (length v.output ≡ 0) × (length v.scratch ≡ d) × (0 < d)
  HoldsReserve d (some p) v =
      (g : ℕ) × (held : ℕ) × (g ∣ p) × (held + 2 ≤ d + d) × IsBalanced d g held v

module _ {ℓ κ} {A : Type ℓ} {S : Type κ} (d : ℕ) (silence : A) where
  -- `k` samples of silence behind the output.
  abbrev pub padded : View A S → ℕ → View A S
  padded v k = record v { output = v.output ++ replicate k silence }

  padded-IsBalanced :
      (g held : ℕ) (v : View A S) (k : ℕ)
      → (g ∣ d) × (0 < g)
      → g ∣ length v.input
      → length v.input < d
      → length v.scratch ≡ d
      → length v.input + length v.output + k ≡ held
      → d ≤ held + g
      → IsBalanced d g held (padded v k)
  padded-IsBalanced g held v k unit phase settled scratch total enough = record {
    unit = unit;
    phase = phase;
    settled = settled;
    scratch = scratch;
    total =
        omega
          (arith, total, length-append v.output (replicate k silence), length-replicate k silence);
    enough = enough;
  }

  pub first-IsBalanced :
      (v : View A S) (h : ℕ)
      → 0 < h
      → HoldsReserve d none v
      → let g = greatest_common_divisor h d in
        IsBalanced d g (d - g) (padded v (missing (reserve d none h) (length v.output)))
  first-IsBalanced v h pos (input, output, scratch, block) =
      let g : ℕ = greatest_common_divisor h d in
      let divides = (dvd-greatest_common_divisor_iff h d g).0 (dvd_refl g) in
      let bounds = gcd_bounds h d block in
      rw (reserve_first d h pos) (
        padded-IsBalanced g (d - g) v (d - g - length v.output) (divides.1, bounds.0)
          (subst (λ k. g ∣ k) (sym input) (dvd-zero g)) (omega arith) scratch (omega arith)
          (omega arith))

  -- After priming for a block of `h` samples the queues are balanced for such blocks.
  pub padded-HoldsReserve :
      (q : Option ℕ) (v : View A S) (h : ℕ)
      → 0 < h
      → HoldsReserve d q v
      → HoldsReserve d (some h) (padded v (missing (reserve d q h) (length v.output)))
  padded-HoldsReserve none v h pos held =
      let g : ℕ = greatest_common_divisor h d in
      let divides = (dvd-greatest_common_divisor_iff h d g).0 (dvd_refl g) in
      (
        g,
        d - g,
        divides.0,
        omega (arith, gcd_bounds h d held.3, held.3),
        first-IsBalanced v h pos held,
      )
  padded-HoldsReserve (some p) v h pos (g, held, unit, small, bal) = elim (ℕ_discrete p h) [
    | yes same ↦
        subst (λ k. HoldsReserve d (some h) (padded v (missing k (length v.output))))
          (sym (reserve_same d h pos) ∙ ap (λ k. reserve d (some k) h) (sym same))
          (
            g,
            held,
            subst (λ k. g ∣ k) same unit,
            small,
            padded-IsBalanced g held v 0 bal.unit bal.phase bal.settled bal.scratch
                (omega (arith, bal.total)) bal.enough,
          )
    | no ne ↦ rw (reserve_changed d p h pos ne) (
      1,
      length v.input + length v.output + (d - 1 - length v.output),
      one-dvd h,
      omega (arith, bal.total, bal.settled, small),
      padded-IsBalanced 1 (length v.input + length v.output + (d - 1 - length v.output)) v
          (d - 1 - length v.output) (one-dvd d, omega arith) (one-dvd (length v.input)) bal.settled
          bal.scratch refl (omega (arith, bal.settled)),
    )
  ]

pub next_quantum-reserve :
    (d : ℕ) (q : Option ℕ) (h : ℕ) → 0 < h → next_quantum (reserve d q h) q h ≡ some h
unfolding reserve
next_quantum-reserve d q h pos = ground arith
