-- ===== src/Host/Timing/Calls.antt =====
-- A host that hands crates/riaps-host/src/adapter_buf.rs as many samples as it takes back, one block
-- after the other, of any sizes.
use Prim.Native.Nat.{◌∣◌}
use blockcat.Prelude.{
  ℕ, ◌+◌, ◌-◌, ◌/◌, ◌≤◌, ◌≡◌, ◌∙◌, sym, subst, arith, List, ◌++◌, length, take, drop,
  take_of_length_le, ap,
}
use blockcat.Host.Blocks.{View, Adapter, rounds, reserve, missing, accepted, drained, next, report}
use blockcat.Host.Rounds.{KeepsLength}
use blockcat.Host.Adapter.{AdapterProcessReport}
use blockcat.Host.Timing.{IsBalanced, served, served-IsBalanced}
use blockcat.Host.Timing.Reserve.{padded}

-- Every sample went in, none was dropped, and no output had to be made up.
pub record IsClean (inputs : ℕ) (r : AdapterProcessReport) : Type 0 where
  pub all_in : r.accepted_input_samples ≡ inputs
  pub none_refused : r.dropped_input_samples ≡ 0
  pub none_dropped : r.dropped_output_samples ≡ 0
  pub none_missing : r.underrun_samples ≡ 0

module _ {ℓ κ} {A : Type ℓ} {S : Type κ} (d : ℕ) (silence : A) where
  -- The queues of `t`, primed for a block of `h` samples.
  abbrev pub primed_view : Adapter A S → ℕ → View A S
  primed_view t h = padded d silence t.view (missing (reserve d t.quantum h) (length t.view.output))

module _ {ℓ κ} {A : Type ℓ} {S : Type κ} (c d : ℕ) (silence : A)
    (callback : S → List A → List A → S × List A) where
  -- Where the whole input fits, the loop over the blocks starts from the primed queues and the input.
  pub drained-served :
      (t : Adapter A S) (inputs : List A)
      → length t.view.input + length inputs ≤ c
      → drained c d silence callback t inputs (length inputs)
        ≡ served c d callback (primed_view d silence t (length inputs)) inputs
  drained-served t inputs room =
      let all : take (accepted c d silence callback t inputs) inputs ≡ inputs =
        take_of_length_le (accepted c d silence callback t inputs) inputs (omega arith) in
      ap
        (λ xs.
          rounds c d callback (length (t.view.input ++ xs) / d)
            (record (primed_view d silence t (length inputs)) { input = t.view.input ++ xs }) 0)
        all

module _ {ℓ κ} {A : Type ℓ} {S : Type κ} (c d : ℕ) (silence : A)
    (callback : S → List A → List A → S × List A) (keeps : KeepsLength callback) where
  -- What one call does to balanced queues.
  pub next-IsBalanced :
      (g held : ℕ) (t : Adapter A S) (inputs : List A)
      → IsBalanced d g held (primed_view d silence t (length inputs))
      → g ∣ length inputs
      → held + length inputs ≤ c
      → IsClean (length inputs) (report c d silence callback t inputs (length inputs))
        × IsBalanced d g held (next c d silence callback t inputs (length inputs)).view
  next-IsBalanced g held t inputs bal unit room =
      let h : ℕ = length inputs in
      let fits : length t.view.input + h ≤ c = omega (arith, bal.total) in
      let same = drained-served c d silence callback t inputs fits in
      let (lost, ready, after) =
        served-IsBalanced c d callback keeps g held (primed_view d silence t h) inputs bal unit
          room in
      (
        record {
          all_in = omega arith;
          none_refused = omega arith;
          none_dropped = ap (λ r. r.1) same ∙ lost;
          none_missing = ap (λ r. h - length (r.0.output)) same ∙ omega (arith, ready);
        },
        subst (λ r. IsBalanced d g held (record (r.0) { output = drop h r.0.output })) (sym same)
            after,
      )
