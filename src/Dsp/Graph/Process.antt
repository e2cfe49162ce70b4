-- ===== src/Dsp/Graph/Process.antt =====
-- crates/riaps-dsp/src/graph.rs: `process` and `reset` of the compiled graph, over its flat buffers.
-- `none` is a panic: an index or a slice out of range.
mod Slices
pub mod Blocks
pub mod Nodes
pub mod Calls
pub mod Compiled
mod Tests
use blockcat.Prelude.{
  ℕ, zero, suc, ◌+◌, ◌*◌, min, Option, none, some, List, [], ◌∷◌, ◌++◌, map, leb, length, get_elem?,
  set, take, drop, replicate, ◌>>=◌, ◌>>◌, assert,
}
use blockcat.Dsp.Node.{ProcessContext}
use blockcat.Dsp.Graph.{DspNode, DspGraphInner}

module _ {ℓ} {A : Type ℓ} where
  -- `xs[start..start + count]`
  pub slice : List A → ℕ → ℕ → Option (List A)
  slice xs start count = do
    assert (leb (start + count) (length xs))
    some (take count (drop start xs))

  -- The content of a slice after a block is copied over its front.
  pub overwrite : List A → List A → List A
  overwrite [] block = []
  overwrite (x ∷ xs) [] = x ∷ xs
  overwrite (x ∷ xs) (y ∷ block) = y ∷ overwrite xs block

  -- The content of a buffer after a block is copied over it from index `start` on.
  pub write_slice : List A → ℕ → List A → List A
  write_slice xs zero block = overwrite xs block
  write_slice [] (suc start) block = []
  write_slice (x ∷ xs) (suc start) block = x ∷ write_slice xs start block

module _ {ℓ} {F : Type ℓ} (add : F → F → F) where
  -- `for (mixed, &sample) in mixed.iter_mut().zip(samples) { *mixed += sample; }`
  pub add_into : List F → List F → List F
  add_into [] samples = []
  add_into (m ∷ mixed) [] = m ∷ mixed
  add_into (m ∷ mixed) (s ∷ samples) = add m s ∷ add_into mixed samples

  -- The loop over predecessors, or over sinks: the blocks of the nodes, added to `mixed`.
  pub mix_nodes : List F → ℕ → ℕ → List ℕ → List F → Option (List F)
  mix_nodes node_outputs max_block sample_count [] mixed = some mixed
  mix_nodes node_outputs max_block sample_count (v ∷ vs) mixed = do
    block ← slice node_outputs (v * max_block) sample_count
    mix_nodes node_outputs max_block sample_count vs (add_into mixed block)

  module _ (silence : F) where
    -- What `mix_buffer[..sample_count]` holds before the node runs.
    pub mix_input : List F → List F → ℕ → ℕ → List ℕ → Option (List F)
    mix_input input node_outputs max_block sample_count [] = slice input 0 sample_count
    mix_input input node_outputs max_block sample_count (v ∷ vs) =
        mix_nodes node_outputs max_block sample_count (v ∷ vs) (replicate sample_count silence)

    module _ {κ} {D : Type κ} (ops : DspNode F D) where
      -- One round of the loop over the order.
      pub process_node :
          List F → ProcessContext → ℕ → ℕ → DspGraphInner F D → Option (DspGraphInner F D)
      process_node input ctx sample_count index g = do
        assert (leb sample_count (length g.mix_buffer))
        sources ← get_elem? g.predecessors index
        mixed ← mix_input input g.node_outputs g.max_block sample_count sources
        node_output ← slice g.node_outputs (index * g.max_block) sample_count
        node ← get_elem? g.nodes index
        let (node', block) = ops.process node mixed node_output ctx
        some (record g {
          nodes = set g.nodes index node';
          node_outputs = write_slice g.node_outputs (index * g.max_block) block;
          mix_buffer = overwrite g.mix_buffer mixed;
        })

      pub process_nodes :
          List F → ProcessContext → ℕ → List ℕ → DspGraphInner F D → Option (DspGraphInner F D)
      process_nodes input ctx sample_count [] g = some g
      process_nodes input ctx sample_count (index ∷ order) g = do
        g' ← process_node input ctx sample_count index g
        process_nodes input ctx sample_count order g'

      -- The new content of an output of `len` samples: the blocks of the sinks, added to silence.
      pub mix_output : ℕ → ℕ → DspGraphInner F D → Option (List F)
      mix_output sample_count len g = do
        let silent = replicate len silence
        cleared ← slice silent 0 sample_count
        mixed ← mix_nodes g.node_outputs g.max_block sample_count g.sinks cleared
        some (overwrite silent mixed)

      -- The new content of the output, and the graph.
      pub process :
          DspGraphInner F D → List F → List F → ProcessContext → Option (List F × DspGraphInner F D)
      process g input output ctx = do
        let sample_count = min (min (length input) (length output)) g.max_block
        g' ← process_nodes input ctx sample_count g.order g
        result ← mix_output sample_count (length output) g'
        some (result, g')

module _ {ℓ κ} {F : Type ℓ} {D : Type κ} (ops : DspNode F D) where
  pub reset : DspGraphInner F D → DspGraphInner F D
  reset g = record g { nodes = map ops.reset g.nodes }
