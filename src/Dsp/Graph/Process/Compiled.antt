-- ===== src/Dsp/Graph/Process/Compiled.antt =====
-- From `compile` to the calls of `process` and `reset` of crates/riaps-dsp/src/graph.rs.
use blockcat.Prelude.{
  ℕ, ◌*◌, ◌<◌, ◌≡◌, ◌∙◌, refl, sym, ap, subst, arith, Option, some, List, Result, ok, length,
  length-replicate, if◌then◌else◌, count,
}
use blockcat.Dsp.Node.{ProcessContext}
use blockcat.Dsp.Graph.{DspNode, DynamicGraphBuilder, GraphError, DspGraphInner, compile}
use blockcat.Dsp.Graph.Lookup.{IsTable}
use blockcat.Dsp.Graph.Edges.{targets}
use blockcat.Dsp.Graph.Start.{is_nil}
use blockcat.Dsp.Graph.Compile.{
  IsCompiled, Outcome, no_nodes, has_cycle, too_large, compiled, compile-Outcome,
}
use blockcat.Dsp.Graph.Builder.{IsWellFormed}
use blockcat.Dsp.Graph.Process.Nodes.{IsReady}
use blockcat.Dsp.Graph.Process.Calls.{Call, run_calls, Served, run_calls_lem}

module _ {ℓ κ} {F : Type ℓ} {D : Type κ} (silence : F) (ops : DspNode F D)
    (b : DynamicGraphBuilder D) where
  graph_or : DspGraphInner F D → Option (Result (DspGraphInner F D) GraphError) → DspGraphInner F D
  graph_or g (some (ok g')) = g'
  graph_or g r = g

  Outcome-ok :
      {r : Option (Result (DspGraphInner F D) GraphError)} (g : DspGraphInner F D)
      → Outcome silence ops b r
      → r ≡ some (ok g)
      → (f : ℕ → ℕ) × IsCompiled silence ops b g f
  unfolding graph_or
  Outcome-ok g (no_nodes e') e = absurd (ground arith)
  Outcome-ok g (has_cycle h) e = absurd (ground arith)
  Outcome-ok g (too_large h over) e = absurd (ground arith)
  Outcome-ok g (compiled g' f fits c) e =
      (f, subst (λ h. IsCompiled silence ops b h f) (ap (graph_or g) e) c)

  IsCompiled-IsReady :
      (g : DspGraphInner F D) (f : ℕ → ℕ) (d : ℕ → D)
      → IsCompiled silence ops b g f
      → IsTable b.nodes (length b.nodes) d
      → IsReady (length b.nodes) b.max_block b.connections g.order g.sinks g d
  IsCompiled-IsReady g f d c t = record {
    nodes = subst (λ ns. IsTable ns (length b.nodes) d) (sym c.nodes) t;
    order = refl;
    predecessors = c.predecessors;
    sinks = refl;
    max_block = c.max_block;
    node_outputs =
        ap length c.node_outputs
        ∙ length-replicate (length b.nodes * b.max_block) silence
        ∙ ap (λ k. length b.nodes * k) (sym c.max_block);
    mix_buffer = ap length c.mix_buffer ∙ length-replicate b.max_block silence ∙ sym c.max_block;
  }

  module _ (add : F → F → F) where
    -- Where a well-formed builder `b`, with the nodes `d`, compiles to the graph `g`, and `process` of
    -- a node keeps the length of the slice that it writes: any calls of `process` and `reset` on `g`
    -- do not panic, and their outputs are among those that the nodes may give without the buffers.
    -- In a call of `process`, with the least of the lengths of input and output and the block size as
    -- the number of samples, every node runs once, on the sum of the blocks that its predecessors make
    -- in this call, or on the input where it has none; the output is the sum of the blocks of the
    -- sinks, and silence behind it. The sinks are the nodes that lead nowhere, each listed once.
    pub compiled_graph_serves :
        (g : DspGraphInner F D) (d : ℕ → D) (calls : List (Call F))
        → ((node : D) (inputs outputs : List F) (ctx : ProcessContext)
            → length (ops.process node inputs outputs ctx).1 ≡ length outputs)
        → IsWellFormed b
        → compile silence ops b ≡ some (ok g)
        → IsTable b.nodes (length b.nodes) d
        → (results : List (List F)) × (run_calls add silence ops g calls ≡ some results)
          × Served add silence ops
              (length b.nodes)
              b.max_block
              b.connections
              g.sinks
              d
              calls
              results
          × ((v : ℕ)
              → v < length b.nodes
              → count v g.sinks ≡ (if is_nil (targets b.connections v) then 1 else 0))
    compiled_graph_serves g d calls keeps w e t =
        let (f, c) = Outcome-ok g (compile-Outcome silence ops b w.valid) e in
        let (results, e', served) =
          run_calls_lem add silence ops keeps (length b.nodes) b.max_block b.connections g.order
            g.sinks w.valid c.order c.sinks_below calls g d (IsCompiled-IsReady g f d c t) in
        (results, e', served, c.sinks)
