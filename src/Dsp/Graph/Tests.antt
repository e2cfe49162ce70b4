-- ===== src/Dsp/Graph/Tests.antt =====
-- Graphs that compile or do not, and the theorem on the builder at a concrete graph. A number stands
-- for a node, and is its latency.
use blockcat.Prelude.{ℕ, ◌≡◌, refl, arith, some, List, [], ◌∷◌, ok, err, replicate}
use blockcat.Dsp.Graph.{
  DspNode, DynamicGraphBuilder, cycle_detected, new, add_node, connect, disconnect, contains,
  retain_others, max_of, add_edge, add_edges, sources_from, sinks_from, relax, kahn, get_all,
  path_latencies, assemble, compile_nodes, compile,
}
use blockcat.Dsp.Graph.Compile.{Outcome}
use blockcat.Dsp.Graph.Builder.{
  Edit, adds, connects, disconnects, edit, edits, IsWellFormed, built_graph,
}

abbrev thru : DspNode ℕ ℕ
thru = record {
  process = λ node inputs outputs ctx. (node, inputs);
  reset = λ node. node;
  latency_samples = λ node. node;
}

-- A diamond: 0 leads to 1 and 2, and both lead to 3; a connection back is made and removed.
abbrev diamond : List (Edit ℕ)
diamond =
    adds 1
    ∷ adds 10
    ∷ adds 100
    ∷ adds 1000
    ∷ connects 0 2
    ∷ connects 2 3
    ∷ connects 0 1
    ∷ connects 1 3
    ∷ connects 3 0
    ∷ disconnects 3 0
    ∷ []

abbrev fresh_builder : DynamicGraphBuilder ℕ
fresh_builder = record { nodes = []; connections = []; max_block = 2 }

compile-diamond :
    compile 0 thru (edits fresh_builder diamond)
    ≡ some (
        ok (record {
          nodes = 1 ∷ 10 ∷ 100 ∷ 1000 ∷ [];
          order = 0 ∷ 2 ∷ 1 ∷ 3 ∷ [];
          predecessors = [] ∷ (0 ∷ []) ∷ (0 ∷ []) ∷ (2 ∷ 1 ∷ []) ∷ [];
          sinks = 3 ∷ [];
          node_outputs = replicate 8 0;
          mix_buffer = replicate 2 0;
          max_block = 2;
          total_latency = 1101;
        }))
unfolding edits edit add_node connect disconnect contains retain_others compile compile_nodes
    assemble path_latencies max_of get_all kahn relax sources_from sinks_from add_edges add_edge
compile-diamond = refl

compile-loop :
    compile 0 thru (edits fresh_builder (adds 1 ∷ adds 2 ∷ connects 0 1 ∷ connects 1 0 ∷ []))
    ≡ some (err cycle_detected)
unfolding edits edit add_node connect contains compile compile_nodes assemble path_latencies max_of
    get_all kahn relax sources_from sinks_from add_edges add_edge
compile-loop = refl

built_graph_example :
    (b : DynamicGraphBuilder ℕ) × (new 2 ≡ some b)
    × IsWellFormed (edits b diamond)
    × Outcome 0 thru (edits b diamond) (compile 0 thru (edits b diamond))
built_graph_example = built_graph 0 thru 2 diamond (omega arith)
