-- ===== src/Dsp/Graph/Builder.antt =====
-- The builder of crates/riaps-dsp/src/graph.rs in use, from its constructor to `compile`.
use blockcat.Prelude.{
  ℕ, ◌≤◌, ◌<◌, ◌≡◌, refl, arith, Bool-cases, inl, inr, true, false, ◌||◌, some, List, [], ◌∷◌, ◌++◌,
  leb, ltb, length, length-append,
}
use blockcat.Dsp.Graph.{
  DspNode, DynamicGraphBuilder, contains, same_edge, retain_others, new, add_node, connect,
  disconnect, compile,
}
use blockcat.Dsp.Graph.Edges.{AreValid}
use blockcat.Dsp.Graph.Compile.{Outcome, compile-Outcome}

pub data Edit {κ} (D : Type κ) : Type κ where
  adds : D → Edit D
  connects : (from to : ℕ) → Edit D
  disconnects : (from to : ℕ) → Edit D

module _ {κ} {D : Type κ} where
  -- The builder after a call; what `connect` returns is left aside.
  unfoldable pub edit : DynamicGraphBuilder D → Edit D → DynamicGraphBuilder D
  edit b (adds node) = (add_node b node).1
  edit b (connects from to) = (connect b from to).1
  edit b (disconnects from to) = disconnect b from to

  unfoldable pub edits : DynamicGraphBuilder D → List (Edit D) → DynamicGraphBuilder D
  edits b [] = b
  edits b (e ∷ es) = edits (edit b e) es

-- No connection stands twice.
abbrev pub IsSimple : List (ℕ × ℕ) → Type 0
IsSimple [] = Unit
IsSimple (e ∷ es) = (contains es e.0 e.1 ≡ false) × IsSimple es

AreValid-more : (n m : ℕ) (es : List (ℕ × ℕ)) → n ≤ m → AreValid n es → AreValid m es
AreValid-more n m [] le valid = tt
AreValid-more n m (e ∷ es) le (here, there) =
    ((omega (arith, here.0, le), omega (arith, here.1, le)), AreValid-more n m es le there)

AreValid-append :
    (n : ℕ) (es : List (ℕ × ℕ)) (u v : ℕ)
    → AreValid n es
    → u < n
    → v < n
    → AreValid n (es ++ ((u, v) ∷ []))
AreValid-append n [] u v valid lt lt' = ((lt, lt'), tt)
AreValid-append n (e ∷ es) u v (here, there) lt lt' = (here, AreValid-append n es u v there lt lt')

AreValid-retain :
    (n : ℕ) (es : List (ℕ × ℕ)) (u v : ℕ) → AreValid n es → AreValid n (retain_others es u v)
unfolding retain_others
AreValid-retain n [] u v valid = tt
AreValid-retain n (e ∷ es) u v (here, there) = elim (Bool-cases (same_edge e u v)) [
  | inl same ↦ rw same (AreValid-retain n es u v there)
  | inr other ↦ rw other (here, AreValid-retain n es u v there)
]

contains-append :
    (es : List (ℕ × ℕ)) (u v x y : ℕ)
    → contains (es ++ ((u, v) ∷ [])) x y ≡ (contains es x y || same_edge (u, v) x y)
unfolding contains
contains-append [] u v x y = ground arith
contains-append (e ∷ es) u v x y = let rest = contains-append es u v x y in ground arith

contains-retain :
    (es : List (ℕ × ℕ)) (u v x y : ℕ)
    → contains es x y ≡ false
    → contains (retain_others es u v) x y ≡ false
unfolding contains retain_others
contains-retain [] u v x y e = refl
contains-retain (f ∷ es) u v x y e =
    let rest = contains-retain es u v x y (ground arith) in
    elim (Bool-cases (same_edge f u v)) [
      | inl same ↦ rw same rest
      | inr other ↦
          let not_here : same_edge f x y ≡ false = ground arith in rw (other, not_here) rest
    ]

IsSimple-append :
    (es : List (ℕ × ℕ)) (u v : ℕ)
    → IsSimple es
    → contains es u v ≡ false
    → IsSimple (es ++ ((u, v) ∷ []))
unfolding contains
IsSimple-append [] u v simple e = (refl, tt)
IsSimple-append (f ∷ es) u v (here, there) e = (
  (let more = contains-append es u v f.0 f.1 in
      let other : same_edge (u, v) f.0 f.1 ≡ false = ground arith in ground arith),
  IsSimple-append es u v there (ground arith),
)

IsSimple-retain : (es : List (ℕ × ℕ)) (u v : ℕ) → IsSimple es → IsSimple (retain_others es u v)
unfolding retain_others
IsSimple-retain [] u v simple = tt
IsSimple-retain (e ∷ es) u v (here, there) = elim (Bool-cases (same_edge e u v)) [
  | inl same ↦ rw same (IsSimple-retain es u v there)
  | inr other ↦ rw other (contains-retain es u v e.0 e.1 here, IsSimple-retain es u v there)
]

-- The connections are between nodes, and none stands twice.
pub record IsWellFormed {κ} {D : Type κ} (b : DynamicGraphBuilder D) : Type 0 where
  pub valid : AreValid (length b.nodes) b.connections
  pub simple : IsSimple b.connections

module _ {κ} {D : Type κ} where
  connect-IsWellFormed :
      (b : DynamicGraphBuilder D) (from to : ℕ)
      → IsWellFormed b
      → IsWellFormed (connect b from to).1
  unfolding connect
  connect-IsWellFormed b from to w = elim (Bool-cases (leb (length b.nodes) from)) [
    | inl e ↦ rw e w
    | inr e ↦ elim (Bool-cases (leb (length b.nodes) to)) [
      | inl e' ↦ rw (e, e') w
      | inr e' ↦ elim (Bool-cases (contains b.connections from to)) [
        | inl e'' ↦ rw (e, e', e'') w
        | inr e'' ↦
            rw (e, e', e'')
              (record {
                valid =
                    AreValid-append (length b.nodes) b.connections from to w.valid (ground arith)
                      (ground arith);
                simple = IsSimple-append b.connections from to w.simple e'';
              })
      ]
    ]
  ]

  edit-IsWellFormed :
      (b : DynamicGraphBuilder D) (e : Edit D) → IsWellFormed b → IsWellFormed (edit b e)
  unfolding edit add_node disconnect
  edit-IsWellFormed b (adds node) w = record {
    valid =
        AreValid-more (length b.nodes) (length (b.nodes ++ (node ∷ []))) b.connections
          (omega (arith, length-append b.nodes (node ∷ []))) w.valid;
    simple = w.simple;
  }
  edit-IsWellFormed b (connects from to) w = connect-IsWellFormed b from to w
  edit-IsWellFormed b (disconnects from to) w = record {
    valid = AreValid-retain (length b.nodes) b.connections from to w.valid;
    simple = IsSimple-retain b.connections from to w.simple;
  }

  edits-IsWellFormed :
      (b : DynamicGraphBuilder D) (es : List (Edit D)) → IsWellFormed b → IsWellFormed (edits b es)
  unfolding edits
  edits-IsWellFormed b [] w = w
  edits-IsWellFormed b (e ∷ es) w = edits-IsWellFormed (edit b e) es (edit-IsWellFormed b e w)

module _ {ℓ κ} {F : Type ℓ} {D : Type κ} (silence : F) (ops : DspNode F D) where
  -- A builder made with a block size above 0, after any calls of `add_node`, `connect` and
  -- `disconnect` with any arguments, connects only nodes, holds no connection twice, and compiles
  -- with no panic to an outcome that its connections call for: `Empty` where it has no node,
  -- `CycleDetected` only where they have a cycle, `BufferSizeOverflow` only where they have none
  -- and the buffers are too large, and else a compiled graph, with a topological order of all nodes,
  -- the tables and sinks of the connections, and the largest latency of the paths to a sink.
  pub built_graph :
      (max_block : ℕ) (es : List (Edit D))
      → 0 < max_block
      → (b : DynamicGraphBuilder D) × (new max_block ≡ some b)
        × IsWellFormed (edits b es)
        × Outcome silence ops (edits b es) (compile silence ops (edits b es))
  unfolding new
  built_graph max_block es pos =
      let b : DynamicGraphBuilder D = record {
        nodes = [];
        connections = [];
        max_block = max_block;
      } in
      let w = edits-IsWellFormed b es (record { valid = tt; simple = tt }) in
      let positive : ltb 0 max_block ≡ true = ground arith in
      (b, rw positive, w, compile-Outcome silence ops (edits b es) w.valid)
