-- ===== src/Dsp/Graph/Process/Calls.antt =====
-- Whole calls of `process` and `reset` of crates/riaps-dsp/src/graph.rs.
use blockcat.Prelude.{
  ℕ, zero, suc, ◌-◌, ◌*◌, ◌≤◌, ◌<◌, ◌≡◌, ◌∙◌, refl, ap, arith, Option, some, List, [], ◌∷◌, ◌++◌,
  map, min, length, length-take, length-drop, length-replicate, take, drop, replicate, ◌>>=◌,
}
use blockcat.Dsp.Node.{ProcessContext}
use blockcat.Dsp.Graph.{DspNode, DspGraphInner}
use blockcat.Dsp.Graph.Lookup.{map-IsTable}
use blockcat.Dsp.Graph.Edges.{AreValid}
use blockcat.Dsp.Graph.Relax.{count-nil}
use blockcat.Dsp.Graph.Schedule.{IsBelow, IsOrder}
use blockcat.Dsp.Graph.Process.{overwrite, mix_output, process_nodes, process, reset}
use blockcat.Dsp.Graph.Process.Slices.{slice-some}
use blockcat.Dsp.Graph.Process.Blocks.{block_room, sum_blocks, length-sum_blocks, mix_nodes_lem}
use blockcat.Dsp.Graph.Process.Nodes.{IsReady, Visiting, run_node, process_nodes_lem}

overwrite-replicate {ℓ} :
    {F : Type ℓ} (silence : F) (m : ℕ) (block : List F)
    → length block ≤ m
    → overwrite (replicate m silence) block ≡ block ++ replicate (m - length block) silence
unfolding overwrite
overwrite-replicate silence zero [] le = refl
overwrite-replicate silence zero (x ∷ block) le = absurd (omega arith)
overwrite-replicate silence (suc m) [] le =
    let same : suc m ≡ suc m - 0 = omega arith in ap (λ k. replicate k silence) same
overwrite-replicate silence (suc m) (x ∷ block) le =
    let same : m - length block ≡ suc m - suc (length block) = omega arith in
    ap (λ t. x ∷ t)
      (overwrite-replicate silence m block (omega arith)
        ∙ ap (λ k. block ++ replicate k silence) same)

take-replicate {ℓ} :
    {F : Type ℓ} (silence : F) (m k : ℕ)
    → k ≤ m
    → take k (replicate m silence) ≡ replicate k silence
take-replicate silence m zero le = refl
take-replicate silence zero (suc k) le = absurd (omega arith)
take-replicate silence (suc m) (suc k) le =
    ap (λ t. silence ∷ t) (take-replicate silence m k (omega arith))

-- A call of a method of the compiled graph.
pub data Call {ℓ} (F : Type ℓ) : Type ℓ where
  process_call : (input output : List F) (ctx : ProcessContext) → Call F
  reset_call : Call F

module _ {ℓ κ} {F : Type ℓ} {D : Type κ} (add : F → F → F) (silence : F) (ops : DspNode F D) where
  -- The outputs of a list of calls.
  unfoldable pub run_calls : DspGraphInner F D → List (Call F) → Option (List (List F))
  run_calls g [] = some []
  run_calls g (process_call input output ctx ∷ calls) = do
    (result, g') ← process add silence ops g input output ctx
    results ← run_calls g' calls
    some (result ∷ results)
  run_calls g (reset_call ∷ calls) = run_calls (reset ops g) calls

  -- The number of samples of a call.
  abbrev pub samples : ℕ → List F → List F → ℕ
  samples mb input output = min (min (length input) (length output)) mb

  -- What `process` is to give, where `f` gives the blocks of the nodes: the sum of the blocks of the
  -- sinks, and silence behind it.
  pub mixed_output : ℕ → List ℕ → ℕ → (ℕ → D × List F) → List F
  mixed_output sc sinks len f =
      sum_blocks add silence (replicate sc silence) (map (λ v. (f v).1) sinks)
      ++ replicate (len - sc) silence

  -- The outputs that a graph of nodes may give, without its buffers. In a call of `process` every
  -- node runs once, from its state, on the sum of the blocks that its predecessors make in this
  -- call, over a slice of any content; `reset` resets every node.
  pub data Served (n mb : ℕ) (es : List (ℕ × ℕ)) (sinks : List ℕ)
      : (ℕ → D) → List (Call F) → List (List F) → Type (ℓ ⊔ κ) where
    no_call : (d : ℕ → D) → Served n mb es sinks d [] []
    processed :
        (d : ℕ → D) (input output : List F) (ctx : ProcessContext) (calls : List (Call F))
        (results : List (List F)) (old : ℕ → List F) (f : ℕ → D × List F)
        → ((v : ℕ) → v < n → length (old v) ≡ samples mb input output)
        → ((v : ℕ)
            → v < n
            → f v
              ≡ run_node add silence ops ctx es
                  (take (samples mb input output) input)
                  (λ u. (d u, old u))
                  f
                  v)
        → Served n mb es sinks (λ v. (f v).0) calls results
        → Served n mb es sinks d
            (process_call input output ctx ∷ calls)
            (mixed_output (samples mb input output) sinks (length output) f ∷ results)
    was_reset :
        (d : ℕ → D) (calls : List (Call F)) (results : List (List F))
        → Served n mb es sinks (λ v. ops.reset (d v)) calls results
        → Served n mb es sinks d (reset_call ∷ calls) results

  process-some :
      (g g' : DspGraphInner F D) (input output : List F) (ctx : ProcessContext) (result : List F)
      → process_nodes add silence ops input ctx (samples g.max_block input output) g.order g
        ≡ some g'
      → mix_output add silence ops (samples g.max_block input output) (length output) g'
        ≡ some result
      → process add silence ops g input output ctx ≡ some (result, g')
  unfolding process
  process-some g g' input output ctx result e e' = rw (e, e') refl

  module _
      (keeps : (node : D) (inputs outputs : List F) (ctx : ProcessContext)
        → length (ops.process node inputs outputs ctx).1 ≡ length outputs)
      (n mb : ℕ) (es : List (ℕ × ℕ)) (order sinks : List ℕ) (valid : AreValid n es)
      (sched : IsOrder n es order) (below : IsBelow n sinks) where
    pub reset-IsReady :
        (g : DspGraphInner F D) (d : ℕ → D)
        → IsReady n mb es order sinks g d
        → IsReady n mb es order sinks (reset ops g) (λ v. ops.reset (d v))
    unfolding reset
    reset-IsReady g d r = record {
      nodes = map-IsTable ops.reset g.nodes n d r.nodes;
      order = r.order;
      predecessors = r.predecessors;
      sinks = r.sinks;
      max_block = r.max_block;
      node_outputs = r.node_outputs;
      mix_buffer = r.mix_buffer;
    }

    abbrev old_block : ℕ → DspGraphInner F D → ℕ → List F
    old_block sc g v = take sc (drop (v * g.max_block) g.node_outputs)

    old_block-length :
        (sc : ℕ) (g : DspGraphInner F D) (v : ℕ)
        → sc ≤ g.max_block
        → length g.node_outputs ≡ n * g.max_block
        → v < n
        → length (old_block sc g v) ≡ sc
    old_block-length sc g v fits size lt = omega (
      arith,
      length-take sc (drop (v * g.max_block) g.node_outputs),
      length-drop (v * g.max_block) g.node_outputs,
      block_room v n g.max_block sc lt fits,
      size,
    )

    output_lem :
        (sc len : ℕ) (g : DspGraphInner F D) (f : ℕ → D × List F)
        → sc ≤ mb
        → sc ≤ len
        → Visiting n mb es order sinks sc g f
        → mix_output add silence ops sc len g ≡ some (mixed_output sc sinks len f)
    unfolding mix_output mixed_output
    output_lem sc len g f fits room s =
        let sum = sum_blocks add silence (replicate sc silence) (map (λ v. (f v).1) sinks) in
        let size : length sum ≡ sc =
          length-sum_blocks add silence (replicate sc silence) (map (λ v. (f v).1) sinks)
          ∙ length-replicate sc silence in
        rw
          (
            slice-some (replicate len silence) 0 sc (omega (arith, length-replicate len silence)),
            take-replicate silence len sc room,
            s.ready.sinks,
            mix_nodes_lem add silence n g.max_block sc (omega (arith, fits, s.ready.max_block))
                g.node_outputs (λ v. (f v).1) sinks (replicate sc silence) s.ready.node_outputs
                s.blocks below,
          )
          (ap some (
            overwrite-replicate silence len sum (omega arith)
            ∙ ap (λ k. sum ++ replicate (len - k) silence) size))

    -- One call of `process`.
    pub process_lem :
        (g : DspGraphInner F D) (d : ℕ → D) (input output : List F) (ctx : ProcessContext)
        → IsReady n mb es order sinks g d
        → (g' : DspGraphInner F D) × (old : ℕ → List F) × (f : ℕ → D × List F) × (process add
              silence ops g input output ctx
            ≡ some (mixed_output (samples mb input output) sinks (length output) f, g'))
          × IsReady n mb es order sinks g' (λ v. (f v).0)
          × ((v : ℕ) → v < n → length (old v) ≡ samples mb input output)
          × ((v : ℕ)
              → v < n
              → f v
                ≡ run_node add silence ops ctx es
                    (take (samples mb input output) input)
                    (λ u. (d u, old u))
                    f
                    v)
    process_lem g d input output ctx r =
        let sc = samples mb input output in
        let same : min (min (length input) (length output)) g.max_block ≡ sc =
          ap (min (min (length input) (length output))) r.max_block in
        let fits : sc ≤ g.max_block = omega (arith, r.max_block) in
        let sizes : (v : ℕ) → v < n → length (old_block sc g v) ≡ sc =
          (λ v lt. old_block-length sc g v fits r.node_outputs lt) in
        let (g', f, e, s, ran) =
          process_nodes_lem add silence ops keeps ctx n mb es order sinks valid sched input sc
            (omega arith) (omega arith) (λ v. (d v, old_block sc g v)) order [] g
            (λ v. (d v, old_block sc g v)) sizes refl (record { ready = r; blocks = λ v lt. refl })
            (λ v pos. absurd (omega (arith, pos, count-nil v))) (λ v _. refl) in
        (
          g',
          old_block sc g,
          f,
          process-some g g' input output ctx (mixed_output sc sinks (length output) f)
              (ap (λ k. process_nodes add silence ops input ctx k g.order g) same
                ∙ ap (λ o. process_nodes add silence ops input ctx sc o g) r.order
                ∙ e)
              (ap (λ k. mix_output add silence ops k (length output) g') same
                ∙ output_lem sc (length output) g' f (omega arith) (omega arith) s),
          s.ready,
          sizes,
          λ v lt. ran v (omega (arith, sched.all v lt)),
        )

    -- All calls.
    pub run_calls_lem :
        (calls : List (Call F)) (g : DspGraphInner F D) (d : ℕ → D)
        → IsReady n mb es order sinks g d
        → (results : List (List F)) × (run_calls g calls ≡ some results)
          × Served n mb es sinks d calls results
    unfolding run_calls
    run_calls_lem [] g d r = ([], refl, no_call d)
    run_calls_lem (process_call input output ctx ∷ calls) g d r =
        let (g', old, f, e, r', sizes, ran) = process_lem g d input output ctx r in
        let (results, e', served) = run_calls_lem calls g' (λ v. (f v).0) r' in
        (
          mixed_output (samples mb input output) sinks (length output) f ∷ results,
          rw (e, e') refl,
          processed d input output ctx calls results old f sizes ran served,
        )
    run_calls_lem (reset_call ∷ calls) g d r =
        let (results, e, served) =
          run_calls_lem calls (reset ops g) (λ v. ops.reset (d v)) (reset-IsReady g d r) in
        (results, e, was_reset d calls results served)
