-- ===== src/Host/Timing.antt =====
-- When the adapter of crates/riaps-host/src/adapter_buf.rs drops samples or runs dry: not at all,
-- where input and output blocks have the same length and the queues have room for one.
pub mod Reserve
pub mod Calls
use Prim.Native.Nat.{◌∣◌}
use native.Mathlib.Nat.{add-zero, div-add-mod', mod-lt, dvd-sub, le_of_dvd, dvd-mod_iff, dvd-add}
use blockcat.Prelude.{
  ℕ, zero, suc, ◌+◌, ◌-◌, ◌*◌, ◌/◌, ◌%◌, min, max, ◌≤◌, ◌<◌, ◌≡◌, ◌≢◌, ◌∙◌, refl, sym, subst, arith,
  Option, none, some, List, [], ◌∷◌, ◌++◌, length, take, drop, replicate, length-take, length-drop,
  length-append, length-replicate, ap,
}
use blockcat.Host.Blocks.{
  View, Adapter, rounds, reserve, missing, next_quantum, accepted, added, loaded, blocks, drained,
  outputs, next, report,
}
use blockcat.Host.Rounds.{KeepsLength, Moved, rounds-Moved}

-- A multiple of `g` below another is at least `g` below.
dvd_gap : (g r d : ℕ) → g ∣ r → g ∣ d → r < d → r + g ≤ d
dvd_gap g r d p q lt = omega (arith, le_of_dvd (omega arith) (dvd-sub g q p))

-- The two queues hold `held` samples, which is enough for blocks of multiples of `g`.
pub record IsBalanced {ℓ κ} {A : Type ℓ} {S : Type κ} (d g held : ℕ) (v : View A S) : Type 0 where
  pub unit : (g ∣ d) × (0 < g)
  pub phase : g ∣ length v.input
  pub settled : length v.input < d
  pub scratch : length v.scratch ≡ d
  pub total : length v.input + length v.output ≡ held
  pub enough : d ≤ held + g

module _ {ℓ κ} {A : Type ℓ} {S : Type κ} (c d : ℕ)
    (callback : S → List A → List A → S × List A) where
  -- The input behind that of a view, and the loop over the blocks from there.
  abbrev pub fed : View A S → List A → View A S
  fed v inputs = record v { input = v.input ++ inputs }

  abbrev pub served : View A S → List A → View A S × ℕ
  served v inputs = rounds c d callback ((length (v.input ++ inputs)) / d) (fed v inputs) 0

module _ {ℓ κ} {A : Type ℓ} {S : Type κ} (c d : ℕ) (callback : S → List A → List A → S × List A)
    (keeps : KeepsLength callback) where
  pub served-IsBalanced :
      (g held : ℕ) (v : View A S) (inputs : List A)
      → IsBalanced d g held v
      → g ∣ length inputs
      → held + length inputs ≤ c
      → let (w, lost) = served c d callback v inputs in
        (lost ≡ 0)
        × (length inputs ≤ length w.output)
        × IsBalanced d g held (record w { output = drop (length inputs) w.output })
  served-IsBalanced g held v inputs bal dvd room =
      let n : ℕ = length (v.input ++ inputs) in
      let sum : n ≡ length v.input + length inputs = length-append v.input inputs in
      let split : n / d * d + n % d ≡ n = div-add-mod' n d in
      let below : n % d < d = mod-lt n (omega (arith, bal.settled)) in
      let (moved, lost) =
        rounds-Moved c d callback keeps (n / d) (fed c d callback v inputs) 0 bal.scratch
          (omega (arith, split, sum, bal.total)) in
      let left : length (served c d callback v inputs).0.input ≡ n % d =
        omega (arith, moved.input, split) in
      let unit : g ∣ n % d =
        (dvd-mod_iff g bal.unit.0).1 (subst (λ k. g ∣ k) (sym sum) (dvd-add g bal.phase dvd)) in
      let gap : n % d + g ≤ d = dvd_gap g (n % d) d unit bal.unit.0 below in
      let ready : length inputs ≤ length (served c d callback v inputs).0.output =
        omega (arith, moved.output, split, sum, gap, bal.total, bal.enough) in
      (
        lost,
        ready,
        record {
          unit = bal.unit;
          phase = subst (λ k. g ∣ k) (sym left) unit;
          settled = omega (arith, left, below);
          scratch = moved.scratch;
          total = omega (
            arith,
            left,
            moved.output,
            split,
            sum,
            bal.total,
            ready,
            length-drop (length inputs) (served c d callback v inputs).0.output,
          );
          enough = bal.enough;
        },
      )
