-- ===== src/Host/Rounds.antt =====
-- How many samples the loop over the blocks of crates/riaps-host/src/adapter_buf.rs moves.

use blockcat.Prelude.{
  ℕ, zero, suc, ◌+◌, ◌-◌, ◌*◌, min, ◌≤◌, ◌≡◌, ◌∙◌, refl, arith, List, length, take, length-take,
  length-drop, length-append,
}
use blockcat.Host.Blocks.{View, round, rounds}

-- The callback cannot change the length of its output slice.
abbrev pub KeepsLength {ℓ κ} :
    {A : Type ℓ} {S : Type κ} → (S → List A → List A → S × List A) → Type (ℓ ⊔ κ)
KeepsLength {A} {S} callback = (s : S) (i o : List A) → length (callback s i o).1 ≡ length o

module _ {ℓ κ} {A : Type ℓ} {S : Type κ} (c d : ℕ) (callback : S → List A → List A → S × List A)
    (keeps : KeepsLength callback) where
  -- One round on queues with room for its block.
  pub record Moved (v w : View A S) (k : ℕ) : Type 0 where
    pub input : length w.input ≡ length v.input - k * d
    pub output : length w.output ≡ length v.output + k * d
    pub scratch : length w.scratch ≡ d

  pub round-Moved :
      (v : View A S)
      → length v.scratch ≡ d
      → length v.output + d ≤ c
      → Moved v (round c d callback v).0 1 × ((round c d callback v).1 ≡ 0)
  unfolding round
  round-Moved v sc room =
      let out = (callback v.state (take d v.input) v.scratch).1 in
      let n : length out ≡ d = keeps v.state (take d v.input) v.scratch ∙ sc in
      let w = min (length out) (c - length v.output) in
      (
        record {
          input = omega (arith, length-drop d v.input);
          output = omega (arith, n, length-append v.output (take w out), length-take w out);
          scratch = n;
        },
        omega (arith, n),
      )

  -- Where the output queue has room for `k` blocks, no sample is dropped.
  pub rounds-Moved :
      (k : ℕ) (v : View A S) (dropped : ℕ)
      → length v.scratch ≡ d
      → length v.output + k * d ≤ c
      → Moved v (rounds c d callback k v dropped).0 k
        × ((rounds c d callback k v dropped).1 ≡ dropped)
  unfolding rounds
  rounds-Moved zero v dropped sc room =
      (record { input = omega arith; output = omega arith; scratch = sc }, refl)
  rounds-Moved (suc k) v dropped sc room =
      let (m, none_lost) = round-Moved v sc (omega arith) in
      let rd = round c d callback v in
      let (m', lost) = rounds-Moved k rd.0 (dropped + rd.1) m.scratch (omega (arith, m.output)) in
      (
        record {
          input = omega (arith, m.input, m'.input);
          output = omega (arith, m.output, m'.output);
          scratch = m'.scratch;
        },
        omega (arith, lost, none_lost),
      )
