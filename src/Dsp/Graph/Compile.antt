-- ===== src/Dsp/Graph/Compile.antt =====
-- What `compile` of crates/riaps-dsp/src/graph.rs comes to, on every graph.
use blockcat.Prelude.{
  ℕ, suc, ◌+◌, ◌*◌, ◌≤◌, ◌<◌, ◌≡◌, refl, arith, ℕ_discrete, dec_lt, Bool-cases, inl, inr, true,
  false, Option, some, List, [], ◌∷◌, map, Result, ok, err, ◌==◌, leb, if◌then◌else◌, length,
  replicate, usize_max, count, length-count_eq, length-count_full,
}
use blockcat.Dsp.Graph.{
  DspNode, DynamicGraphBuilder, GraphError, cycle_detected, empty, buffer_size_overflow, Tables,
  DspGraphInner, contains, same_edge, sources_from, sinks_from, max_of, assemble, compile_nodes,
  compile,
}
use blockcat.Dsp.Graph.Lookup.{IsTable, IsTable-ext, replicate-IsTable}
use blockcat.Dsp.Graph.Edges.{AreValid, targets, origins, Holds, add_edges-Holds}
use blockcat.Dsp.Graph.Relax.{count-nil}
use blockcat.Dsp.Graph.Kahn.{position, Running}
use blockcat.Dsp.Graph.Rounds.{once, kahn_lem}
use blockcat.Dsp.Graph.Schedule.{IsBelow, IsOrder}
use blockcat.Dsp.Graph.Latency.{through, get_all-IsTable, path_latencies_lem}
use blockcat.Dsp.Graph.Start.{is_nil, sinks-table, start-Running, all_ordered}

contains-valid :
    (n : ℕ) (es : List (ℕ × ℕ)) (u v : ℕ) → AreValid n es → contains es u v ≡ true → v < n
unfolding contains
contains-valid n [] u v valid e = absurd (ground arith)
contains-valid n (x ∷ es) u v valid e = elim (Bool-cases (same_edge x u v)) [
  | inl here ↦ let inside = valid.0.1 in ground arith
  | inr other ↦ contains-valid n es u v valid.1 (ground arith)
]

-- A complete order is topological.
complete-IsOrder :
    (n : ℕ) (es : List (ℕ × ℕ)) (d : ℕ → ℕ) (order : List ℕ)
    → AreValid n es
    → Running n es d [] order
    → ((v : ℕ) → v < n → count v order ≡ 1)
    → IsOrder n es order
complete-IsOrder n es d order valid r all = record {
  all = all;
  below = λ v le. omega (arith, r.below v le);
  sorted =
      λ u v edge. (r.sorted u v edge (omega (arith, all v (contains-valid n es u v valid edge)))).1;
}

module _ {ℓ κ} {F : Type ℓ} {D : Type κ} (silence : F) (ops : DspNode F D)
    (b : DynamicGraphBuilder D) where
  abbrev size : ℕ
  size = length b.nodes

  -- A compiled graph: its order is topological, its tables are those of the connections, its sinks
  -- are the nodes that lead nowhere, and its latency is the largest of the latencies of the paths
  -- that end in a sink, where `f` gives those of the paths that end in each node.
  pub record IsCompiled (g : DspGraphInner F D) (f : ℕ → ℕ) : Type (ℓ ⊔ κ) where
    pub nodes : g.nodes ≡ b.nodes
    pub order : IsOrder size b.connections g.order
    pub predecessors : IsTable g.predecessors size (origins b.connections)
    pub sinks :
        (v : ℕ) → v < size → count v g.sinks ≡ (if is_nil (targets b.connections v) then 1 else 0)
    pub sinks_below : IsBelow size g.sinks
    pub latency : (v : ℕ) → v < size → f v ≡ through ops b.nodes b.connections f v
    pub total_latency : g.total_latency ≡ max_of (map f g.sinks)
    pub node_outputs : g.node_outputs ≡ replicate (size * b.max_block) silence
    pub mix_buffer : g.mix_buffer ≡ replicate b.max_block silence
    pub max_block : g.max_block ≡ b.max_block

  -- The connections go up in some ranking of the nodes, so that there is no cycle.
  unfoldable pub IsAcyclic : Type 0
  IsAcyclic = (rank : ℕ → ℕ) × ((u v : ℕ) → contains b.connections u v ≡ true → rank u < rank v)

  -- The results of `compile`, and when they come.
  pub data Outcome : Option (Result (DspGraphInner F D) GraphError) → Type (ℓ ⊔ κ) where
    no_nodes : size ≡ 0 → Outcome (some (err empty))
    has_cycle : ¬ IsAcyclic → Outcome (some (err cycle_detected))
    too_large :
        IsAcyclic → usize_max < size * b.max_block → Outcome (some (err buffer_size_overflow))
    compiled :
        (g : DspGraphInner F D) (f : ℕ → ℕ)
        → size * b.max_block ≤ usize_max
        → IsCompiled g f
        → Outcome (some (ok g))

  order-IsAcyclic : (order : List ℕ) → IsOrder size b.connections order → IsAcyclic
  unfolding IsAcyclic
  order-IsAcyclic order sched = (λ v. position v order, sched.sorted)

  assemble-Outcome :
      (t : Tables) (order : List ℕ)
      → AreValid size b.connections
      → Holds size t
          (targets b.connections)
          (origins b.connections)
          (λ v. length (origins b.connections v))
      → IsOrder size b.connections order
      → Outcome (assemble silence ops b t order)
  unfolding assemble
  assemble-Outcome t order valid h sched =
      let (ls, f, e, table, equations) =
        path_latencies_lem ops b.nodes size b.connections order t.predecessors refl valid sched
          h.predecessors order [] (replicate size 0) (λ v. 0) refl (replicate-IsTable size 0)
          (λ v pos. absurd (omega (arith, pos, count-nil v))) in
      let (inside, outside) = sinks-table size t.adjacency (targets b.connections) h.adjacency in
      let outputs = get_all-IsTable ls size f (sinks_from 0 t.adjacency) table outside in
      elim (dec_lt usize_max (size * b.max_block)) [
        | yes over ↦
            let test : leb (size * b.max_block) usize_max ≡ false = ground arith in
            rw (e, outputs, test) (too_large (order-IsAcyclic order sched) over)
        | no fits ↦
            let test : leb (size * b.max_block) usize_max ≡ true = ground arith in
            rw (e, outputs, test)
              (compiled
                (record {
                  nodes = b.nodes;
                  order = order;
                  predecessors = t.predecessors;
                  sinks = sinks_from 0 t.adjacency;
                  node_outputs = replicate (size * b.max_block) silence;
                  mix_buffer = replicate b.max_block silence;
                  max_block = b.max_block;
                  total_latency = max_of (map f (sinks_from 0 t.adjacency));
                })
                f (omega arith)
                (record {
                  nodes = refl;
                  order = sched;
                  predecessors = h.predecessors;
                  sinks = inside;
                  sinks_below = outside;
                  latency = λ v lt. equations v (omega (arith, sched.all v lt));
                  total_latency = refl;
                  node_outputs = refl;
                  mix_buffer = refl;
                  max_block = refl;
                }))
      ]

  compile_nodes-Outcome : AreValid size b.connections → Outcome (compile_nodes silence ops b)
  unfolding compile_nodes IsAcyclic
  compile_nodes-Outcome valid =
      let es = b.connections in
      let (t, e, h) =
        add_edges-Holds size es
          (record {
            indegree = replicate size 0;
            adjacency = replicate size [];
            predecessors = replicate size [];
          })
          (λ u. []) (λ v. []) (λ v. 0)
          (record {
            adjacency = replicate-IsTable size [];
            predecessors = replicate-IsTable size [];
            indegree = replicate-IsTable size 0;
          })
          valid in
      let degrees =
        IsTable-ext t.indegree size (λ v. 0 + length (origins es v)) (λ v. length (origins es v))
          (λ v lt. omega arith) h.indegree in
      let (order, d, e', r) =
        kahn_lem size es valid (size + 1) t.adjacency t.indegree (sources_from 0 t.indegree) []
          (λ v. length (origins es v)) h.adjacency degrees
          (start-Running size es t.indegree degrees) (omega arith) in
      let single = once size es valid d [] order r in
      let below : IsBelow size order = λ v le. omega (arith, r.below v le) in
      elim (ℕ_discrete (length order) size) [
        | yes full ↦
            let test : (length order == size) ≡ true = ground arith in
            rw (e, e', test)
              (assemble-Outcome t order valid
                (record {
                  adjacency = h.adjacency;
                  predecessors = h.predecessors;
                  indegree = degrees;
                })
                (complete-IsOrder size es d order valid r
                  (length-count_full size order single below full)))
        | no short ↦
            let test : (length order == size) ≡ false = ground arith in
            rw (e, e', test)
              (has_cycle (λ acyclic.
                short (length-count_eq size order (complete d order valid r acyclic) below)))
      ]
    where
      complete :
          (d : ℕ → ℕ) (order : List ℕ)
          → AreValid size b.connections
          → Running size b.connections d [] order
          → IsAcyclic
          → (v : ℕ) → v < size
          → count v order ≡ 1
      complete d order valid r (rank, up) v lt =
          all_ordered size b.connections d order rank valid r up (suc (rank v)) v (omega arith) lt

  -- On connections between nodes `compile` does not panic, its loop ends, and: it fails with
  -- `Empty` where there is no node, with `CycleDetected` only where the connections have a cycle,
  -- and with `BufferSizeOverflow` only where they have none and the buffer size is no `usize`; in all
  -- other cases it returns a compiled graph.
  pub compile-Outcome : AreValid size b.connections → Outcome (compile silence ops b)
  unfolding compile
  compile-Outcome valid = elim (ℕ_discrete size 0) [
    | yes e ↦ let test : (size == 0) ≡ true = ground arith in rw test (no_nodes e)
    | no ne ↦ let test : (size == 0) ≡ false = ground arith in rw test (compile_nodes-Outcome valid)
  ]
