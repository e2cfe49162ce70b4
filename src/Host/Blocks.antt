-- ===== src/Host/Blocks.antt =====
-- What the adapter of crates/riaps-host/src/adapter_buf.rs does, over plain queues: the reference
-- that its rings are proved against. `c` is the capacity of both queues and `d` the block size.
use blockcat.Prelude.{
  ℕ, zero, suc, ◌+◌, ◌-◌, ◌/◌, min, max, Option, none, some, List, [], ◌++◌, ◌==◌, if◌then◌else◌,
  length, take, drop, replicate,
}
use blockcat.Host.Adapter.{AdapterProcessReport, greatest_common_divisor}

pub record View {ℓ κ} (A : Type ℓ) (S : Type κ) : Type (ℓ ⊔ κ) where
  pub state : S
  pub input : List A
  pub output : List A
  pub scratch : List A

module _ {ℓ κ} {A : Type ℓ} {S : Type κ} (c d : ℕ)
    (callback : S → List A → List A → S × List A) where
  -- One block through the callback; what does not fit is dropped, and counted.
  unfoldable pub round : View A S → View A S × ℕ
  round v =
      let (s', out) = callback v.state (take d v.input) v.scratch in
      let written = min (length out) (c - length v.output) in
      (
        record {
          state = s';
          input = drop d v.input;
          output = v.output ++ take written out;
          scratch = out;
        },
        d - written,
      )

  unfoldable pub rounds : ℕ → View A S → ℕ → View A S × ℕ
  rounds zero v dropped = (v, dropped)
  rounds (suc k) v dropped = let (v', more) = round v in rounds k v' (dropped + more)

-- How much silence the output must hold in reserve at a host block of `h` samples, where it is
-- established anew: `d - gcd(h, d)` at the first block, `d - 1` where the size has changed.
unfoldable pub reserve : ℕ → Option ℕ → ℕ → Option ℕ
reserve d quantum h = if h == 0 then none else elim quantum [
  | none ↦ some (d - greatest_common_divisor h d)
  | some previous ↦ if previous == h then none else some (d - 1)
]

-- The missing part of a reserve, the block size to compare the next one with, and the latency.
abbrev pub missing : Option ℕ → ℕ → ℕ
missing none held = 0
missing (some r) held = r - held

abbrev pub next_quantum : Option ℕ → Option ℕ → ℕ → Option ℕ
next_quantum none quantum h = quantum
next_quantum (some r) quantum h = some h

abbrev pub next_latency : Option ℕ → ℕ → ℕ
next_latency none latency = latency
next_latency (some r) latency = max latency r

module _ {ℓ} {A : Type ℓ} where
  -- What `k` outputs get: the oldest samples, then silence.
  abbrev pub filled : A → ℕ → List A → List A
  filled silence k q = take k q ++ replicate (k - length q) silence

-- The adapter between two calls.
pub record Adapter {ℓ κ} (A : Type ℓ) (S : Type κ) : Type (ℓ ⊔ κ) where
  pub view : View A S
  pub quantum : Option ℕ
  pub latency : ℕ

module _ {ℓ κ} {A : Type ℓ} {S : Type κ} (c d : ℕ) (silence : A)
    (callback : S → List A → List A → S × List A) where
  abbrev pub accepted : Adapter A S → List A → ℕ
  accepted t inputs = min (length inputs) (c - length t.view.input)

  abbrev pub added : Adapter A S → ℕ → ℕ
  added t k = missing (reserve d t.quantum k) (length t.view.output)

  -- The queues when the loop over the blocks begins.
  abbrev pub loaded : Adapter A S → List A → ℕ → View A S
  loaded t inputs k = record (t.view) {
    input = t.view.input ++ take (accepted t inputs) inputs;
    output = t.view.output ++ replicate (added t k) silence;
  }

  abbrev pub blocks : Adapter A S → List A → ℕ → ℕ
  blocks t inputs k = length (loaded t inputs k).input / d

  -- The queues when that loop ends, and the samples that it dropped.
  abbrev pub drained : Adapter A S → List A → ℕ → View A S × ℕ
  drained t inputs k = rounds c d callback (blocks t inputs k) (loaded t inputs k) 0

  abbrev pub outputs : Adapter A S → List A → ℕ → List A
  outputs t inputs k = filled silence k (drained t inputs k).0.output

  abbrev pub next : Adapter A S → List A → ℕ → Adapter A S
  next t inputs k =
      let v = (drained t inputs k).0 in
      record {
        view = record v { output = drop k v.output };
        quantum = next_quantum (reserve d t.quantum k) t.quantum k;
        latency = next_latency (reserve d t.quantum k) t.latency;
      }

  abbrev pub report : Adapter A S → List A → ℕ → AdapterProcessReport
  report t inputs k = record {
    accepted_input_samples = accepted t inputs;
    dropped_input_samples = length inputs - accepted t inputs;
    processed_dsp_blocks = blocks t inputs k;
    dropped_output_samples = (drained t inputs k).1;
    underrun_samples = k - length (drained t inputs k).0.output;
    latency_added_samples = added t k;
  }

  -- The final block, filled up with silence; only the outputs for real input are kept.
  unfoldable pub flush_block : View A S → View A S
  flush_block v =
      let (s', out) =
        callback v.state (v.input ++ replicate (d - length v.input) silence) v.scratch in
      let tail = take (length v.input) out in
      record {
        state = s';
        input = [];
        output = v.output ++ take (min (length tail) (c - length v.output)) tail;
        scratch = out;
      }

  unfoldable pub flushed : View A S → View A S
  flushed v = if length v.input == 0 then v else flush_block v
