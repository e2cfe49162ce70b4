-- ===== src/Host/Adapter/Flush.antt =====
-- `flush` and `new` of crates/riaps-host/src/adapter_buf.rs against the reference of `Host.Blocks`.
use blockcat.Prelude.{
  ℕ, ◌+◌, ◌-◌, ◌≤◌, ◌<◌, ◌^◌, dec_lt, ◌≡◌, ◌∙◌, refl, sym, subst, arith, none, some, List, [], ◌++◌,
  length, take, drop, replicate, ap, take_of_length_le, drop_of_length_le, ltb, saturating_mul,
  length-append, length-replicate, leb, ◌==◌, true, false,
}
use blockcat.Host.Fifo.Queue
use blockcat.Host.Fifo.Queue.{push_slice-Pushed, push_zeros-Pushed}
use blockcat.Host.Blocks.{View, Adapter, flush_block, flushed}
use blockcat.Host.Rounds.{KeepsLength}
use blockcat.Host.Adapter.{AdapterBuffer, flush_some, flush_remainder, flush, new}
use blockcat.Host.Adapter.Loops.{pop_block-Models, pop_all-Models}
use blockcat.Host.Adapter.Prime.{Refines}
use blockcat.Host.Adapter.Models.{Models, IsSameSetup}

module _ {ℓ κ} {A : Type ℓ} {S : Type κ} (c d : ℕ) (silence : A)
    (callback : S → List A → List A → S × List A) (keeps : KeepsLength callback) where
  flush_block-Models :
      (a : AdapterBuffer A) (v : View A S)
      → Models c d a v
      → 0 < length v.input
      → length v.input < d
      → (a' : AdapterBuffer A) × (flush_some silence callback v.state a (length v.input)
          ≡ some ((flush_block c d silence callback v).state, a'))
        × Models c d a' (flush_block c d silence callback v)
        × IsSameSetup a a'
  unfolding flush_some flush_block
  flush_block-Models a v m pos lt =
      let k : ℕ = length v.input in
      let (input, e, mi) = pop_block-Models c k a.input_fifo v.input m.input (omega arith) in
      let (s', out) = callback v.state (v.input ++ replicate (d - k) silence) v.scratch in
      let (output, e', mo) = push_slice-Pushed c a.output_fifo v.output (take k out) m.output in
      let below : ltb k a.target_block_size ≡ true = ground (arith, m.target) in
      let whole : take k v.input ≡ v.input = take_of_length_le k v.input (omega arith) in
      let none_left : drop k v.input ≡ [] = drop_of_length_le k v.input (omega arith) in
      (
        record a {
          input_fifo = input;
          output_fifo = output;
          scratch_in = v.input ++ replicate (d - k) silence;
          scratch_out = out;
        },
        rw (below, e, m.same_scratch, m.block_in, whole, e'),
        record {
          input = subst (Queue.Models c input) none_left mi;
          output = mo;
          block_in = omega (
            arith,
            length-append v.input (replicate (d - k) silence),
            length-replicate (d - k) silence,
          );
          block_out = keeps v.state (v.input ++ replicate (d - k) silence) v.scratch ∙ m.block_out;
          same_scratch = refl;
          target = m.target;
          positive = m.positive;
          enough = m.enough;
        },
        record { quantum = refl; latency = refl },
      )

  pub flushed_empty : (v : View A S) → length v.input ≡ 0 → flushed c d silence callback v ≡ v
  unfolding flushed
  flushed_empty v e = let e' : (length v.input == 0) ≡ true = ground arith in rw e'

  pub flushed_some :
      (v : View A S)
      → 0 < length v.input
      → flushed c d silence callback v ≡ flush_block c d silence callback v
  unfolding flushed
  flushed_some v pos = let e' : (length v.input == 0) ≡ false = ground arith in rw e'

  pub length-input-flushed : (v : View A S) → length (flushed c d silence callback v).input ≡ 0
  unfolding flushed flush_block
  length-input-flushed v = ground arith

  -- The rest of the input went through the callback, and left the adapter holding the view `w`.
  abbrev Flushes : AdapterBuffer A → S → View A S → Type (ℓ ⊔ κ)
  Flushes a s w =
      (a' : AdapterBuffer A) × (flush_remainder silence callback s a ≡ some (w.state, a'))
      × Models c d a' w
      × IsSameSetup a a'

  flush_remainder-Models :
      (a : AdapterBuffer A) (v : View A S)
      → Models c d a v
      → length v.input < d
      → Flushes a v.state (flushed c d silence callback v)
  unfolding flush_remainder
  flush_remainder-Models a v m lt = elim (dec_lt 0 (length v.input)) [
    | yes pos ↦ subst (Flushes a v.state) (sym (flushed_some v pos)) (
        let (a', e, m', same) = flush_block-Models a v m pos lt in
        let test : (a.input_fifo.len == 0) ≡ false = ground (arith, m.input.count) in
        (a', rw test (ap (flush_some silence callback v.state a) m.input.count ∙ e), m', same))
    | no empty ↦
        let test : (a.input_fifo.len == 0) ≡ true = ground (arith, m.input.count) in
        subst (Flushes a v.state) (sym (flushed_empty v (omega arith)))
          (a, rw test, m, record { quantum = refl; latency = refl })
  ]

  -- `flush` does not panic on an adapter that holds two queues, with less than a block of input,
  -- and a callback that keeps the length of its output block. It returns the output of the
  -- reference, and leaves both queues empty.
  pub flush-Refines :
      (a : AdapterBuffer A) (t : Adapter A S)
      → Refines c d a t
      → length t.view.input < d
      → let w = flushed c d silence callback t.view in
        (a' : AdapterBuffer A) × (flush silence callback t.view.state a
          ≡ some (w.state, a', w.output))
        × Refines c d a' (record t { view = record w { output = [] } })
        × (length w.input ≡ 0)
  unfolding flush
  flush-Refines a t r lt =
      let w = flushed c d silence callback t.view in
      let (b, e, mb, same) = flush_remainder-Models a t.view r.models lt in
      let (f, e', mf) =
        pop_all-Models c (b.output_fifo.len + 1) b.output_fifo w.output mb.output
          (omega (arith, mb.output.count)) in
      (
        record b { output_fifo = f },
        rw (e, e'),
        record {
          models = record {
            input = mb.input;
            output = mf;
            block_in = mb.block_in;
            block_out = mb.block_out;
            same_scratch = mb.same_scratch;
            target = mb.target;
            positive = mb.positive;
            enough = mb.enough;
          };
          quantum = same.quantum ∙ r.quantum;
          latency = same.latency ∙ r.latency;
        },
        length-input-flushed t.view,
      )

  -- An adapter for `d` > 0 samples a block and a capacity of two blocks at least starts empty.
  pub new-Refines :
      (s : S)
      → 0 < d
      → saturating_mul d 2 ≤ c
      → c < 2 ^ 63
      → (a : AdapterBuffer A) × (new silence d c ≡ some a)
        × Refines c d a (record {
          view = record { state = s; input = []; output = []; scratch = replicate d silence };
          quantum = none;
          latency = 0;
        })
  unfolding new
  new-Refines s pos room small =
      let (f, e, m) = Queue.new-Models c silence (omega arith) in
      let block : ltb 0 d ≡ true = ground arith in
      let fits : leb (saturating_mul d 2) c ≡ true = ground arith in
      (
        record {
          input_fifo = f;
          output_fifo = f;
          scratch_in = replicate d silence;
          scratch_out = replicate d silence;
          target_block_size = d;
          host_quantum = none;
          latency_samples = 0;
        },
        rw (block, fits, e),
        record {
          models = record {
            input = m;
            output = m;
            block_in = length-replicate d silence;
            block_out = length-replicate d silence;
            same_scratch = refl;
            target = refl;
            positive = pos;
            enough = omega arith;
          };
          quantum = refl;
          latency = refl;
        },
      )
