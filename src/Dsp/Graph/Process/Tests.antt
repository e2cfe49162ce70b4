-- ===== src/Dsp/Graph/Process/Tests.antt =====
-- Calls of a compiled graph, and the theorems on them at a concrete graph. A number stands for a
-- sample and for a node: a node multiplies its input by its number, and then goes up by 1.
use blockcat.Prelude.{
  ℕ, zero, suc, ◌+◌, ◌*◌, ◌<◌, ◌≡◌, refl, ap, arith, some, List, [], ◌∷◌, ok, length, get_elem?,
  replicate, count, if◌then◌else◌,
}
use blockcat.Dsp.Node.{ProcessContext}
use blockcat.Dsp.Graph.{
  DspNode, DynamicGraphBuilder, DspGraphInner, compile, contains, max_of, add_edge, add_edges,
  sources_from, sinks_from, relax, kahn, get_all, path_latencies, assemble, compile_nodes,
}
use blockcat.Dsp.Graph.Edges.{targets}
use blockcat.Dsp.Graph.Start.{is_nil}
use blockcat.Dsp.Graph.Builder.{IsWellFormed}
use blockcat.Dsp.Graph.Process.{
  slice, overwrite, write_slice, add_into, mix_nodes, mix_input, process_node, process_nodes,
  mix_output, process, reset,
}
use blockcat.Dsp.Graph.Process.Calls.{Call, process_call, reset_call, run_calls, Served}
use blockcat.Dsp.Graph.Process.Compiled.{compiled_graph_serves}

-- The samples of the outputs that have an input.
abbrev amplify : ℕ → List ℕ → List ℕ → List ℕ
amplify g (i ∷ inputs) (o ∷ outputs) = i * g ∷ amplify g inputs outputs
amplify g [] outputs = outputs
amplify g (i ∷ inputs) [] = []

length-amplify :
    (g : ℕ) (inputs outputs : List ℕ) → length (amplify g inputs outputs) ≡ length outputs
length-amplify g (i ∷ inputs) (o ∷ outputs) = ap suc (length-amplify g inputs outputs)
length-amplify g [] outputs = refl
length-amplify g (i ∷ inputs) [] = refl

abbrev gains : DspNode ℕ ℕ
gains = record {
  process = λ node inputs outputs ctx. (node + 1, amplify node inputs outputs);
  reset = λ node. 1;
  latency_samples = λ node. 0;
}

abbrev forked : DynamicGraphBuilder ℕ
forked = record {
  nodes = 2 ∷ 3 ∷ 5 ∷ 7 ∷ [];
  connections = (0, 1) ∷ (0, 2) ∷ (1, 2) ∷ (3, 1) ∷ [];
  max_block = 3;
}

abbrev forked_graph : DspGraphInner ℕ ℕ
forked_graph = record {
  nodes = 2 ∷ 3 ∷ 5 ∷ 7 ∷ [];
  order = 0 ∷ 3 ∷ 1 ∷ 2 ∷ [];
  predecessors = [] ∷ (0 ∷ 3 ∷ []) ∷ (0 ∷ 1 ∷ []) ∷ [] ∷ [];
  sinks = 2 ∷ [];
  node_outputs = replicate 12 0;
  mix_buffer = replicate 3 0;
  max_block = 3;
  total_latency = 0;
}

compile-forked : compile 0 gains forked ≡ some (ok forked_graph)
unfolding contains compile compile_nodes assemble path_latencies max_of get_all kahn relax
    sources_from sinks_from add_edges add_edge
compile-forked = refl

abbrev nowhere : ProcessContext
nowhere = record { sample_rate = 48000; block_size = 3 }

-- The second call is shorter than the input, the last one longer than a block.
abbrev calls : List (Call ℕ)
calls =
    process_call (1 ∷ 10 ∷ []) (9 ∷ 9 ∷ 9 ∷ []) nowhere
    ∷ process_call (1 ∷ 1 ∷ []) (9 ∷ []) nowhere
    ∷ reset_call
    ∷ process_call (1 ∷ 2 ∷ 3 ∷ 4 ∷ []) (9 ∷ 9 ∷ 9 ∷ 9 ∷ []) nowhere
    ∷ []

run_calls-forked :
    run_calls (λ a b. a + b) 0 gains forked_graph calls
    ≡ some ((145 ∷ 1450 ∷ 0 ∷ []) ∷ (282 ∷ []) ∷ (3 ∷ 6 ∷ 9 ∷ 0 ∷ []) ∷ [])
unfolding run_calls process mix_output process_nodes process_node mix_input mix_nodes add_into
    write_slice overwrite slice reset
run_calls-forked = refl

abbrev gain_of : ℕ → ℕ
gain_of zero = 2
gain_of (suc zero) = 3
gain_of (suc (suc zero)) = 5
gain_of _ = 7

entry : (v : ℕ) → v < 4 → get_elem? forked.nodes v ≡ some (gain_of v)
entry zero lt = refl
entry (suc zero) lt = refl
entry (suc (suc zero)) lt = refl
entry (suc (suc (suc zero))) lt = refl
entry (suc (suc (suc (suc v)))) lt = absurd (omega arith)

forked-IsWellFormed : IsWellFormed forked
unfolding contains
forked-IsWellFormed = record { valid = search arith; simple = (refl, (refl, (refl, (refl, tt)))) }

compiled_graph_serves_example :
    (results : List (List ℕ)) × (run_calls (λ a b. a + b) 0 gains forked_graph calls ≡ some results)
    × Served (λ a b. a + b) 0 gains 4 3 forked.connections (2 ∷ []) gain_of calls results
    × ((v : ℕ)
        → v < 4
        → count v (2 ∷ []) ≡ (if is_nil (targets forked.connections v) then 1 else 0))
compiled_graph_serves_example =
    compiled_graph_serves 0 gains forked (λ a b. a + b) forked_graph gain_of calls
      (λ node inputs outputs ctx. length-amplify node inputs outputs) forked-IsWellFormed
      compile-forked (record { size = refl; entry = entry })
