-- ===== src/Dsp/Graph.antt =====
-- crates/riaps-dsp/src/graph.rs: the graph builder, its compilation, and the compiled graph. A trait
-- object `Box<dyn DspNode>` is a value of a type of nodes with the operations of the trait. `none` is
-- a panic: an index out of range, a subtraction below 0, or a failed assertion.
mod Lookup
mod Edges
mod Relax
mod Kahn
mod Rounds
mod Schedule
mod Latency
mod Start
pub mod Compile
pub mod Builder
pub mod Process
mod Tests
use blockcat.Prelude.{
  ℕ, zero, suc, ◌+◌, ◌-◌, ◌*◌, min, max, Bool, true, false, not, ◌&&◌, ◌||◌, Option, none, some,
  List, [], ◌∷◌, ◌++◌, Result, ok, err, ◌==◌, ltb, leb, if◌then◌else◌, length, get_elem?, set,
  replicate, ◌>>=◌, ◌>>◌, assert, saturating_add, usize_max,
}
use blockcat.Dsp.Node.{ProcessContext}

-- `DspNode`, as far as the graph calls it; `D` is the type of all nodes.
pub record DspNode {ℓ κ} (F : Type ℓ) (D : Type κ) : Type (ℓ ⊔ κ) where
  pub process : D → List F → List F → ProcessContext → D × List F
  pub reset : D → D
  pub latency_samples : D → ℕ

pub data GraphError : Type 0 where
  cycle_detected : GraphError
  invalid_node : ℕ → GraphError
  duplicate_edge : GraphError
  empty : GraphError
  buffer_size_overflow : GraphError

pub record DynamicGraphBuilder {κ} (D : Type κ) : Type κ where
  pub nodes : List D
  pub connections : List (ℕ × ℕ)
  pub max_block : ℕ

-- `Vec::contains` and `==` on connections.
abbrev pub same_edge : ℕ × ℕ → ℕ → ℕ → Bool
same_edge e from to = (e.0 == from) && (e.1 == to)

unfoldable pub contains : List (ℕ × ℕ) → ℕ → ℕ → Bool
contains [] from to = false
contains (e ∷ es) from to = same_edge e from to || contains es from to

unfoldable pub retain_others : List (ℕ × ℕ) → ℕ → ℕ → List (ℕ × ℕ)
retain_others [] from to = []
retain_others (e ∷ es) from to =
    if same_edge e from to then retain_others es from to else e ∷ retain_others es from to

module _ {κ} {D : Type κ} where
  pub new : ℕ → Option (DynamicGraphBuilder D)
  new max_block = do
    assert (ltb 0 max_block)
    some (record { nodes = []; connections = []; max_block = max_block })

  pub add_node : DynamicGraphBuilder D → D → ℕ × DynamicGraphBuilder D
  add_node b node =
      let nodes = b.nodes ++ (node ∷ []) in (length nodes - 1, record b { nodes = nodes })

  pub connect : DynamicGraphBuilder D → ℕ → ℕ → Result (Unit {0}) GraphError × DynamicGraphBuilder D
  connect b from to =
      if leb (length b.nodes) from
      then (err (invalid_node from), b)
      else if leb (length b.nodes) to
      then (err (invalid_node to), b)
      else if contains b.connections from to
      then (err duplicate_edge, b)
      else (ok tt, record b { connections = b.connections ++ ((from, to) ∷ []) })

  pub disconnect : DynamicGraphBuilder D → ℕ → ℕ → DynamicGraphBuilder D
  disconnect b from to = record b { connections = retain_others b.connections from to }

-- The tables that `compile` builds from the connections.
pub record Tables : Type 0 where
  pub indegree : List ℕ
  pub adjacency : List (List ℕ)
  pub predecessors : List (List ℕ)

pub add_edge : Tables → ℕ × ℕ → Option Tables
add_edge t (from, to) = do
  successors ← get_elem? t.adjacency from
  sources ← get_elem? t.predecessors to
  degree ← get_elem? t.indegree to
  some (record {
    indegree = set t.indegree to (degree + 1);
    adjacency = set t.adjacency from (successors ++ (to ∷ []));
    predecessors = set t.predecessors to (sources ++ (from ∷ []));
  })

pub add_edges : Tables → List (ℕ × ℕ) → Option Tables
add_edges t [] = some t
add_edges t (e ∷ es) = do t' ← add_edge t e; add_edges t' es

-- `(0..n).filter(|&i| indegree[i] == 0)`, from index `i` on.
pub sources_from : ℕ → List ℕ → List ℕ
sources_from i [] = []
sources_from i (d ∷ ds) = if d == 0 then i ∷ sources_from (i + 1) ds else sources_from (i + 1) ds

-- The loop over the successors of a node: the degrees and the queue.
pub relax : List ℕ → List ℕ → List ℕ → Option (List ℕ × List ℕ)
relax [] indegree queue = some (indegree, queue)
relax (v ∷ vs) indegree queue = do
  degree ← get_elem? indegree v
  assert (ltb 0 degree)
  relax vs (set indegree v (degree - 1)) (if degree - 1 == 0 then queue ++ (v ∷ []) else queue)

-- Kahn's loop on fuel; every round moves a node from the queue to the order.
pub kahn : ℕ → List (List ℕ) → List ℕ → List ℕ → List ℕ → Option (List ℕ)
kahn zero adjacency indegree queue order = none
kahn (suc fuel) adjacency indegree [] order = some order
kahn (suc fuel) adjacency indegree (u ∷ queue) order = do
  successors ← get_elem? adjacency u
  (indegree', queue') ← relax successors indegree queue
  kahn fuel adjacency indegree' queue' (order ++ (u ∷ []))

-- The indices of the empty rows, from index `i` on.
pub sinks_from : ℕ → List (List ℕ) → List ℕ
sinks_from i [] = []
sinks_from i ([] ∷ rows) = i ∷ sinks_from (i + 1) rows
sinks_from i ((x ∷ xs) ∷ rows) = sinks_from (i + 1) rows

-- `iter().map(|&i| values[i])`, and `max().unwrap_or(0)`.
pub get_all {ℓ} : {A : Type ℓ} → List A → List ℕ → Option (List A)
get_all values [] = some []
get_all values (i ∷ is) = do
  value ← get_elem? values i
  rest ← get_all values is
  some (value ∷ rest)

unfoldable pub max_of : List ℕ → ℕ
max_of [] = 0
max_of (x ∷ xs) = max x (max_of xs)

pub record DspGraphInner {ℓ κ} (F : Type ℓ) (D : Type κ) : Type (ℓ ⊔ κ) where
  pub nodes : List D
  pub order : List ℕ
  pub predecessors : List (List ℕ)
  pub sinks : List ℕ
  pub node_outputs : List F
  pub mix_buffer : List F
  pub max_block : ℕ
  pub total_latency : ℕ

module _ {ℓ κ} {F : Type ℓ} {D : Type κ} (ops : DspNode F D) where
  -- The loop that fills `path_latency`.
  pub path_latencies : List D → List (List ℕ) → List ℕ → List ℕ → Option (List ℕ)
  path_latencies nodes predecessors [] latency = some latency
  path_latencies nodes predecessors (index ∷ order) latency = do
    sources ← get_elem? predecessors index
    inputs ← get_all latency sources
    node ← get_elem? nodes index
    path_latencies nodes predecessors order
        (set latency index (saturating_add (max_of inputs) (ops.latency_samples node)))

module _ {ℓ κ} {F : Type ℓ} {D : Type κ} (silence : F) (ops : DspNode F D) where
  -- `compile`, once the order is complete. Allocation succeeds at any size that fits a usize.
  pub assemble :
      DynamicGraphBuilder D → Tables → List ℕ → Option (Result (DspGraphInner F D) GraphError)
  assemble b t order =
      let n = length b.nodes in
      let sinks = sinks_from 0 t.adjacency in
      do
        path_latency ← path_latencies ops b.nodes t.predecessors order (replicate n 0)
        outputs ← get_all path_latency sinks
        some (
            if leb (n * b.max_block) usize_max
            then ok (record {
              nodes = b.nodes;
              order = order;
              predecessors = t.predecessors;
              sinks = sinks;
              node_outputs = replicate (n * b.max_block) silence;
              mix_buffer = replicate b.max_block silence;
              max_block = b.max_block;
              total_latency = max_of outputs;
            })
            else err buffer_size_overflow)

  -- `compile`, where the builder has nodes.
  pub compile_nodes : DynamicGraphBuilder D → Option (Result (DspGraphInner F D) GraphError)
  compile_nodes b = do
    let n = length b.nodes
    t ←
        add_edges
          (record {
            indegree = replicate n 0;
            adjacency = replicate n [];
            predecessors = replicate n [];
          })
          b.connections
    order ← kahn (n + 1) t.adjacency t.indegree (sources_from 0 t.indegree) []
    let graph = assemble b t order
    if length order == n then graph else some (err cycle_detected)

  pub compile : DynamicGraphBuilder D → Option (Result (DspGraphInner F D) GraphError)
  compile b = if length b.nodes == 0 then some (err empty) else compile_nodes b
