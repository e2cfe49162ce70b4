-- ===== src/Host/Adapter/Process.antt =====
-- `process_host_block` of crates/riaps-host/src/adapter_buf.rs against the reference of `Host.Blocks`.
use blockcat.Prelude.{ℕ, ◌≡◌, ◌∙◌, refl, some, List}
use blockcat.Host.Fifo.Queue.{push_slice-Pushed}
use blockcat.Host.Blocks.{Adapter, reserve, loaded, drained, outputs, next, report}
use blockcat.Host.Rounds.{KeepsLength}
use blockcat.Host.Adapter.{AdapterBuffer, process_host_block}
use blockcat.Host.Adapter.Loops.{fill_outputs-Models}
use blockcat.Host.Adapter.Prime.{Refines, prime_for_quantum-Refines}
use blockcat.Host.Adapter.Models.{Models, drain_complete_blocks-Models}

module _ {ℓ κ} {A : Type ℓ} {S : Type κ} (c d : ℕ) (silence : A)
    (callback : S → List A → List A → S × List A) (keeps : KeepsLength callback) where
  -- On an adapter that holds two queues, with a callback that keeps the length of its output block,
  -- a host callback never panics, on any input and any number of outputs. It returns the outputs
  -- and the report of the reference over plain queues, and leaves the adapter holding the queues,
  -- host block size and latency of the reference.
  pub process_host_block-Refines :
      (a : AdapterBuffer A) (t : Adapter A S) (inputs : List A) (k : ℕ)
      → Refines c d a t
      → (a' : AdapterBuffer A) × (process_host_block silence callback t.view.state a inputs k
          ≡ some (
            (next c d silence callback t inputs k).view.state,
            a',
            outputs c d silence callback t inputs k,
            report c d silence callback t inputs k,
          ))
        × Refines c d a' (next c d silence callback t inputs k)
  unfolding process_host_block
  process_host_block-Refines a t inputs k r =
      let (p, e1, rp) =
        prime_for_quantum-Refines c d silence a t k (reserve d t.quantum k) r refl in
      let (input, e2, mi) = push_slice-Pushed c p.input_fifo t.view.input inputs rp.models.input in
      let a1 : AdapterBuffer A = record p { input_fifo = input } in
      let m1 : Models c d a1 (loaded c d silence callback t inputs k) = record {
        input = mi;
        output = rp.models.output;
        block_in = rp.models.block_in;
        block_out = rp.models.block_out;
        same_scratch = rp.models.same_scratch;
        target = rp.models.target;
        positive = rp.models.positive;
        enough = rp.models.enough;
      } in
      let (a2, e3, m2, same) =
        drain_complete_blocks-Models c d silence callback keeps a1
          (loaded c d silence callback t inputs k) m1 in
      let (f, e4, mf) =
        fill_outputs-Models c silence k a2.output_fifo
          (drained c d silence callback t inputs k).0.output m2.output in
      (
        record a2 { output_fifo = f },
        rw (e1, e2, e3, e4),
        record {
          models = record {
            input = m2.input;
            output = mf;
            block_in = m2.block_in;
            block_out = m2.block_out;
            same_scratch = m2.same_scratch;
            target = m2.target;
            positive = m2.positive;
            enough = m2.enough;
          };
          quantum = same.quantum ∙ rp.quantum;
          latency = same.latency ∙ rp.latency;
        },
      )
