-- ===== src/Dsp/Graph/Process/Nodes.antt =====
-- The loop over the order in `process` of crates/riaps-dsp/src/graph.rs: every node runs once, on
-- the blocks that its predecessors made in the same call.
use blockcat.Prelude.{
  ℕ, ◌*◌, ◌≤◌, ◌<◌, ◌≡◌, ◌∙◌, refl, sym, ap, arith, true, some, List, [], ◌∷◌, ◌++◌, append_assoc,
  append-nil, map, ◌==◌, leb, length, set, take, count, Bool-cases, inl, inr,
}
use blockcat.Dsp.Node.{ProcessContext}
use blockcat.Dsp.Graph.{DspNode, DspGraphInner}
use blockcat.Dsp.Graph.Lookup.{update, IsTable, set-IsTable, IsTable-ext}
use blockcat.Dsp.Graph.Edges.{AreValid, origins}
use blockcat.Dsp.Graph.Latency.{origins-IsBelow}
use blockcat.Dsp.Graph.Schedule.{IsOrder, map-update, next_node, done_none, equations}
use blockcat.Dsp.Graph.Process.{overwrite, write_slice, process_node, process_nodes}
use blockcat.Dsp.Graph.Process.Slices.{length-overwrite, length-write_slice}
use blockcat.Dsp.Graph.Process.Blocks.{
  received, HoldsBlocks, slice-HoldsBlocks, mix_input_lem, write-HoldsBlocks,
}

update-map {ℓ κ} :
    {X : Type ℓ} {Y : Type κ} (h : X → Y) (f : ℕ → X) (i : ℕ) (x : X) (v : ℕ)
    → update (λ u. h (f u)) i (h x) v ≡ h (update f i x v)
update-map h f i x v = elim (Bool-cases (v == i)) [ inl e ↦ rw e refl | inr e ↦ rw e refl ]

module _ {ℓ κ} {F : Type ℓ} {D : Type κ} (n mb : ℕ) (es : List (ℕ × ℕ))
    (order₀ sinks₀ : List ℕ) where
  -- A compiled graph between two calls: the nodes are in the states `d`.
  pub record IsReady (g : DspGraphInner F D) (d : ℕ → D) : Type (ℓ ⊔ κ) where
    pub nodes : IsTable g.nodes n d
    pub order : g.order ≡ order₀
    pub predecessors : IsTable g.predecessors n (origins es)
    pub sinks : g.sinks ≡ sinks₀
    pub max_block : g.max_block ≡ mb
    pub node_outputs : length g.node_outputs ≡ n * g.max_block
    pub mix_buffer : length g.mix_buffer ≡ g.max_block

  -- The state of the loop: the states and the blocks are those of `f`.
  pub record Visiting (sc : ℕ) (g : DspGraphInner F D) (f : ℕ → D × List F) : Type (ℓ ⊔ κ) where
    pub ready : IsReady g (λ v. (f v).0)
    pub blocks : HoldsBlocks n g.max_block sc g.node_outputs (λ v. (f v).1)

module _ {ℓ κ} {F : Type ℓ} {D : Type κ} (add : F → F → F) (silence : F) (ops : DspNode F D)
    (ctx : ProcessContext) (es : List (ℕ × ℕ)) (block : List F) (f₀ : ℕ → D × List F) where
  -- The node `v` runs once from its state `(f₀ v).0`, over the old content `(f₀ v).1` of its slice, on
  -- what its predecessors made; `f` gives the new states and blocks.
  pub run_node : (ℕ → D × List F) → ℕ → D × List F
  run_node f v =
      ops.process (f₀ v).0 (received add silence block (map (λ u. (f u).1) (origins es v))) (f₀ v).1
        ctx

  pub run_node-local :
      (f : ℕ → D × List F) (i : ℕ) (x : D × List F) (v : ℕ)
      → count i (origins es v) ≡ 0
      → run_node (update f i x) v ≡ run_node f v
  unfolding run_node
  run_node-local f i x v e =
      ap (λ bs. ops.process (f₀ v).0 (received add silence block bs) (f₀ v).1 ctx)
        (map-update (λ p. p.1) f i x (origins es v) e)

module _ {ℓ κ} {F : Type ℓ} {D : Type κ} (add : F → F → F) (silence : F) (ops : DspNode F D)
    (keeps : (node : D) (inputs outputs : List F) (ctx : ProcessContext)
      → length (ops.process node inputs outputs ctx).1 ≡ length outputs)
    (ctx : ProcessContext) (n mb : ℕ) (es : List (ℕ × ℕ)) (order sinks : List ℕ)
    (valid : AreValid n es) (sched : IsOrder n es order) (input : List F) (sc : ℕ) (fits : sc ≤ mb)
    (long : sc ≤ length input) where
  store : DspGraphInner F D → ℕ → List F → D × List F → DspGraphInner F D
  store g i mixed r = record g {
    nodes = set g.nodes i r.0;
    node_outputs = write_slice g.node_outputs (i * g.max_block) r.1;
    mix_buffer = overwrite g.mix_buffer mixed;
  }

  store-Visiting :
      (g : DspGraphInner F D) (f : ℕ → D × List F) (i : ℕ) (mixed : List F) (r : D × List F)
      → i < n
      → length r.1 ≡ sc
      → Visiting n mb es order sinks sc g f
      → Visiting n mb es order sinks sc (store g i mixed r) (update f i r)
  unfolding store
  store-Visiting g f i mixed r lt size s = record {
    ready = record {
      nodes =
          IsTable-ext (set g.nodes i r.0) n (update (λ v. (f v).0) i r.0) (λ v. (update f i r v).0)
            (λ v _. update-map (λ p. p.0) f i r v)
            (set-IsTable g.nodes n (λ v. (f v).0) i r.0 lt s.ready.nodes);
      order = s.ready.order;
      predecessors = s.ready.predecessors;
      sinks = s.ready.sinks;
      max_block = s.ready.max_block;
      node_outputs = length-write_slice g.node_outputs (i * g.max_block) r.1 ∙ s.ready.node_outputs;
      mix_buffer = length-overwrite g.mix_buffer mixed ∙ s.ready.mix_buffer;
    };
    blocks = λ v inside.
        write-HoldsBlocks n g.max_block sc (omega (arith, fits, s.ready.max_block)) g.node_outputs
          (λ v. (f v).1) i r.1 s.ready.node_outputs s.blocks lt size v inside
        ∙ update-map (λ p. p.1) f i r v;
  }

  process_node_lem :
      (f₀ : ℕ → D × List F) (g : DspGraphInner F D) (f : ℕ → D × List F) (i : ℕ)
      → i < n
      → f i ≡ f₀ i
      → Visiting n mb es order sinks sc g f
      → process_node add silence ops input ctx sc i g
        ≡ some (
            store g i
              (received add silence (take sc input) (map (λ u. (f u).1) (origins es i)))
              (run_node add silence ops ctx es (take sc input) f₀ f i))
  unfolding process_node store run_node
  process_node_lem f₀ g f i lt e s =
      let fits' : sc ≤ g.max_block = omega (arith, fits, s.ready.max_block) in
      let test : leb sc (length g.mix_buffer) ≡ true =
        (let m = s.ready.mix_buffer in ground arith) in
      rw
        (
          test,
          s.ready.predecessors.entry i lt,
          mix_input_lem add silence n g.max_block sc fits' input g.node_outputs (λ v. (f v).1)
              (origins es i) long s.ready.node_outputs s.blocks (origins-IsBelow n es i valid),
          slice-HoldsBlocks n g.max_block sc fits' g.node_outputs (λ v. (f v).1) i
              s.ready.node_outputs s.blocks lt,
          s.ready.nodes.entry i lt,
        )
        (ap
          (λ p. some (
            store g i (received add silence (take sc input) (map (λ u. (f u).1) (origins es i))) (
              ops.process p.0
                (received add silence (take sc input) (map (λ u. (f u).1) (origins es i))) p.1
                ctx)))
          e)

  length-run_node :
      (f₀ f : ℕ → D × List F) (v : ℕ)
      → length (run_node add silence ops ctx es (take sc input) f₀ f v).1 ≡ length (f₀ v).1
  unfolding run_node
  length-run_node f₀ f v =
      keeps (f₀ v).0 (received add silence (take sc input) (map (λ u. (f u).1) (origins es v)))
        (f₀ v).1 ctx

  pub process_nodes_lem :
      (f₀ : ℕ → D × List F) (rest done : List ℕ) (g : DspGraphInner F D) (f : ℕ → D × List F)
      → ((v : ℕ) → v < n → length (f₀ v).1 ≡ sc)
      → order ≡ done ++ rest
      → Visiting n mb es order sinks sc g f
      → ((v : ℕ) → 0 < count v done → f v ≡ run_node add silence ops ctx es (take sc input) f₀ f v)
      → ((v : ℕ) → count v done ≡ 0 → f v ≡ f₀ v)
      → (g' : DspGraphInner F D) × (f' : ℕ → D × List F) × (process_nodes add silence ops input ctx
            sc rest g
          ≡ some g')
        × Visiting n mb es order sinks sc g' f'
        × ((v : ℕ)
            → 0 < count v order
            → f' v ≡ run_node add silence ops ctx es (take sc input) f₀ f' v)
  unfolding process_nodes
  process_nodes_lem f₀ [] done g f sizes e s ran old =
      (g, f, refl, s, λ v pos. ran v (omega (arith, pos, ap (count v) (e ∙ append-nil done))))
  process_nodes_lem f₀ (i ∷ rest) done g f sizes e s ran old =
      let (inside, new) = next_node n es order sched i done rest e in
      let run = run_node add silence ops ctx es (take sc input) f₀ in
      let mixed = received add silence (take sc input) (map (λ u. (f u).1) (origins es i)) in
      let (g', f', e', s', ran') =
        process_nodes_lem f₀ rest (done ++ (i ∷ [])) (store g i mixed (run f i))
          (update f i (run f i)) sizes (e ∙ sym (append_assoc done (i ∷ []) rest))
          (store-Visiting g f i mixed (run f i) inside (length-run_node f₀ f i ∙ sizes i inside) s)
          (equations n es order sched run (run_node-local add silence ops ctx es (take sc input) f₀)
            i done rest f e new ran)
          (unvisited f₀ f i done (run f i) old) in
      (g', f', rw (process_node_lem f₀ g f i inside (old i new) s) e', s', ran')
    where
      unvisited :
          (f₀ f : ℕ → D × List F) (i : ℕ) (done : List ℕ) (r : D × List F)
          → ((v : ℕ) → count v done ≡ 0 → f v ≡ f₀ v)
          → (v : ℕ) → count v (done ++ (i ∷ [])) ≡ 0
          → update f i r v ≡ f₀ v
      unvisited f₀ f i done r old v e =
          let (before, other) = done_none v i done e in rw other (old v before)
