-- ===== src/Host/Adapter.antt =====
-- `AdapterBuffer` of crates/riaps-host/src/adapter_buf.rs. `none` is a panic: a failed assertion
-- (debug assertions are on), an `expect`, or an index out of range. The callback of the signal graph
-- is a parameter with a state of its own: from that state, the input block and the old content of
-- the output block it makes a new state and the new content of the output block.
pub mod Gcd
mod Loops
pub mod Prime
pub mod Process
pub mod Flush
pub mod Models
mod Tests
use mathlib.Core.WellFounded
use mathlib.Core.WellFounded.{Acc}
use mathlib.Core.Logic.{dite}
use blockcat.Prelude.{
  ℕ, zero, suc, ◌+◌, ◌-◌, ◌%◌, ◌<◌, max, Option, none, some, List, [], ◌∷◌, ◌++◌, ◌==◌, ltb, leb,
  if◌then◌else◌, length, take, replicate, ◌>>=◌, ◌>>◌, assert, not, saturating_mul, lt_wf, dec_lt,
  arith,
}
use blockcat.Host.Fifo
use blockcat.Host.Fifo.{SampleFifo}

pub record AdapterProcessReport : Type 0 where
  pub accepted_input_samples : ℕ
  pub dropped_input_samples : ℕ
  pub processed_dsp_blocks : ℕ
  pub dropped_output_samples : ℕ
  pub underrun_samples : ℕ
  pub latency_added_samples : ℕ

pub record AdapterBuffer {ℓ} (A : Type ℓ) : Type ℓ where
  pub input_fifo : SampleFifo A
  pub output_fifo : SampleFifo A
  pub scratch_in : List A
  pub scratch_out : List A
  pub target_block_size : ℕ
  pub host_quantum : Option ℕ
  pub latency_samples : ℕ

-- `while right != 0 { (left, right) = (right, left % right) }`
gcd_loop : (left right : ℕ) → Acc ◌<◌ right → ℕ
gcd_loop left right (Acc.intro _ smaller) =
    dite (dec_lt 0 right)
      (λ h. gcd_loop right (left % right) (smaller (left % right) (omega arith))) (λ _. left)

unfoldable pub greatest_common_divisor : ℕ → ℕ → ℕ
unfolding gcd_loop lt_wf dec_lt
greatest_common_divisor left right = gcd_loop left right (lt_wf.apply right)

module _ {ℓ} {A : Type ℓ} (silence : A) where
  pub new : ℕ → ℕ → Option (AdapterBuffer A)
  new target_block_size capacity = do
    assert (ltb 0 target_block_size)
    assert (leb (saturating_mul target_block_size 2) capacity)
    input ← Fifo.new silence capacity
    output ← Fifo.new silence capacity
    some (record {
      input_fifo = input;
      output_fifo = output;
      scratch_in = replicate target_block_size silence;
      scratch_out = replicate target_block_size silence;
      target_block_size = target_block_size;
      host_quantum = none;
      latency_samples = 0;
    })

  -- The part of `prime_for_quantum` below its match.
  pub prime : AdapterBuffer A → ℕ → ℕ → Option (ℕ × AdapterBuffer A)
  prime a host_quantum required_reserve = do
    let needed = required_reserve - a.output_fifo.len
    (inserted, output) ← Fifo.push_zeros silence a.output_fifo needed
    assert (inserted == needed)
    some (
      inserted,
      record a {
        output_fifo = output;
        host_quantum = some host_quantum;
        latency_samples = max a.latency_samples required_reserve;
      },
    )

  -- The number of zeros that were inserted, and the adapter.
  pub prime_for_quantum : AdapterBuffer A → ℕ → Option (ℕ × AdapterBuffer A)
  prime_for_quantum a host_quantum =
      if host_quantum == 0 then some (0, a) else elim a.host_quantum [
        | none ↦
            prime a host_quantum
              (a.target_block_size - greatest_common_divisor host_quantum a.target_block_size)
        | some previous ↦
            if previous == host_quantum
            then some (0, a)
            else prime a host_quantum (a.target_block_size - 1)
      ]

  -- `for output in host_outputs`: `k` outputs are left to write. The outputs, the underruns and the
  -- FIFO.
  pub fill_outputs : SampleFifo A → ℕ → Option (List A × ℕ × SampleFifo A)
  fill_outputs f zero = some ([], 0, f)
  fill_outputs f (suc k) = do
    (popped, f') ← Fifo.pop f
    (outputs, underruns, f'') ← fill_outputs f' k
    elim popped [
      | some value ↦ some (value ∷ outputs, underruns, f'')
      | none ↦ some (silence ∷ outputs, underruns + 1, f'')
    ]

module _ {ℓ} {A : Type ℓ} where
  -- `for slot in scratch { *slot = fifo.pop().expect(..) }` over `k` slots.
  pub pop_block : SampleFifo A → ℕ → Option (List A × SampleFifo A)
  pop_block f zero = some ([], f)
  pop_block f (suc k) = do
    (popped, f') ← Fifo.pop f
    sample ← popped
    (samples, f'') ← pop_block f' k
    some (sample ∷ samples, f'')

  -- `while let Some(sample) = output_fifo.pop()`, on fuel.
  pub pop_all : ℕ → SampleFifo A → Option (List A × SampleFifo A)
  pop_all zero f = none
  pop_all (suc fuel) f = do
    (popped, f') ← Fifo.pop f
    elim popped [
      | none ↦ some ([], f')
      | some sample ↦ (do (samples, f'') ← pop_all fuel f'; some (sample ∷ samples, f''))
    ]

module _ {ℓ κ} {A : Type ℓ} {S : Type κ} (silence : A)
    (callback : S → List A → List A → S × List A) where
  -- One round of the loop of `drain_complete_blocks`, with the output samples that it drops.
  pub drain_round : S → AdapterBuffer A → Option (S × AdapterBuffer A × ℕ)
  drain_round s a = do
    (block, input) ← pop_block a.input_fifo (length a.scratch_in)
    let (s', out) = callback s block a.scratch_out
    (written, output) ← Fifo.push_slice a.output_fifo out
    some (
      s',
      record a { input_fifo = input; output_fifo = output; scratch_in = block; scratch_out = out },
      a.target_block_size - written,
    )

  -- The loop on fuel, with `blocks` and `dropped_output` so far.
  pub drain_loop : ℕ → S → AdapterBuffer A → ℕ → ℕ → Option (S × AdapterBuffer A × ℕ × ℕ)
  drain_loop zero s a blocks dropped = none
  drain_loop (suc fuel) s a blocks dropped =
      let rest = drain_round s a >>= λ round.
      drain_loop fuel round.0 round.1 (blocks + 1) (dropped + round.2) in
      if leb a.target_block_size a.input_fifo.len then rest else some (s, a, blocks, dropped)

  -- Each round takes a sample at least, so there are at most `len` of them.
  pub drain_complete_blocks : S → AdapterBuffer A → Option (S × AdapterBuffer A × ℕ × ℕ)
  drain_complete_blocks s a = drain_loop (a.input_fifo.len + 1) s a 0 0

  -- The outputs are `k` samples, all of which are overwritten.
  pub process_host_block :
      S
      → AdapterBuffer A
      → List A
      → ℕ
      → Option (S × AdapterBuffer A × List A × AdapterProcessReport)
  process_host_block s a host_inputs k = do
    (latency, primed) ← prime_for_quantum silence a k
    (accepted, input) ← Fifo.push_slice primed.input_fifo host_inputs
    (s', drained, blocks, dropped) ← drain_complete_blocks s (record primed { input_fifo = input })
    (outputs, underruns, output) ← fill_outputs silence drained.output_fifo k
    some (
      s',
      record drained { output_fifo = output },
      outputs,
      record {
        accepted_input_samples = accepted;
        dropped_input_samples = length host_inputs - accepted;
        processed_dsp_blocks = blocks;
        dropped_output_samples = dropped;
        underrun_samples = underruns;
        latency_added_samples = latency;
      },
    )

  -- The body of the `if` of `flush`: the zero-padded final block.
  pub flush_some : S → AdapterBuffer A → ℕ → Option (S × AdapterBuffer A)
  flush_some s a remainder = do
    assert (ltb remainder a.target_block_size)
    (block, input) ← pop_block a.input_fifo remainder
    let padded = block ++ replicate (length a.scratch_in - remainder) silence
    let (s', out) = callback s padded a.scratch_out
    (written, output) ← Fifo.push_slice a.output_fifo (take remainder out)
    some (
      s',
      record a { input_fifo = input; output_fifo = output; scratch_in = padded; scratch_out = out },
    )

  pub flush_remainder : S → AdapterBuffer A → Option (S × AdapterBuffer A)
  flush_remainder s a =
      if a.input_fifo.len == 0 then some (s, a) else flush_some s a a.input_fifo.len

  pub flush : S → AdapterBuffer A → Option (S × AdapterBuffer A × List A)
  flush s a = do
    (s', a') ← flush_remainder s a
    (output, fifo) ← pop_all (a'.output_fifo.len + 1) a'.output_fifo
    some (s', record a' { output_fifo = fifo }, output)
