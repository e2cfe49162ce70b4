-- ===== src/Dsp/Graph/Edges.antt =====
-- The tables that `compile` of crates/riaps-dsp/src/graph.rs builds, in terms of the connections.
use blockcat.Prelude.{
  ℕ, ◌+◌, ◌<◌, ◌≡◌, ◌∙◌, refl, sym, ap, arith, ℕ_discrete, true, false, some, List, [], ◌∷◌, ◌++◌,
  append_assoc, append-nil, ◌==◌, if◌then◌else◌, length, set,
}
use blockcat.Dsp.Graph.{Tables, add_edge, add_edges}
use blockcat.Dsp.Graph.Lookup.{update, IsTable, IsTable-ext, set-IsTable}

-- The ends of the connections are nodes.
abbrev pub AreValid : ℕ → List (ℕ × ℕ) → Type 0
AreValid n [] = Unit
AreValid n (e ∷ es) = ((e.0 < n) × (e.1 < n)) × AreValid n es

-- The nodes that `u` leads to, and those that lead to `v`.
unfoldable pub targets : List (ℕ × ℕ) → ℕ → List ℕ
targets [] u = []
targets (e ∷ es) u = if e.0 == u then e.1 ∷ targets es u else targets es u

unfoldable pub origins : List (ℕ × ℕ) → ℕ → List ℕ
origins [] v = []
origins (e ∷ es) v = if e.1 == v then e.0 ∷ origins es v else origins es v

pub record Holds (n : ℕ) (t : Tables) (a p : ℕ → List ℕ) (d : ℕ → ℕ) : Type 0 where
  pub adjacency : IsTable t.adjacency n a
  pub predecessors : IsTable t.predecessors n p
  pub indegree : IsTable t.indegree n d

add_edge-Holds :
    (n : ℕ) (t : Tables) (a p : ℕ → List ℕ) (d : ℕ → ℕ) (e : ℕ × ℕ)
    → Holds n t a p d
    → e.0 < n
    → e.1 < n
    → (t' : Tables) × (add_edge t e ≡ some t')
      × Holds n t'
          (update a e.0 (a e.0 ++ (e.1 ∷ [])))
          (update p e.1 (p e.1 ++ (e.0 ∷ [])))
          (update d e.1 (d e.1 + 1))
unfolding add_edge
add_edge-Holds n t a p d (from, to) h lt lt' = (
  record {
    indegree = set t.indegree to (d to + 1);
    adjacency = set t.adjacency from (a from ++ (to ∷ []));
    predecessors = set t.predecessors to (p to ++ (from ∷ []));
  },
  rw (h.adjacency.entry from lt, h.predecessors.entry to lt', h.indegree.entry to lt'),
  record {
    adjacency = set-IsTable t.adjacency n a from (a from ++ (to ∷ [])) lt h.adjacency;
    predecessors = set-IsTable t.predecessors n p to (p to ++ (from ∷ [])) lt' h.predecessors;
    indegree = set-IsTable t.indegree n d to (d to + 1) lt' h.indegree;
  },
)

update-targets :
    (a : ℕ → List ℕ) (e : ℕ × ℕ) (es : List (ℕ × ℕ)) (u : ℕ)
    → update a e.0 (a e.0 ++ (e.1 ∷ [])) u ++ targets es u ≡ a u ++ targets (e ∷ es) u
unfolding targets
update-targets a e es u = elim (ℕ_discrete u e.0) [
  | yes same ↦
      let there : (u == e.0) ≡ true = ground arith in
      let here : (e.0 == u) ≡ true = ground arith in
      rw (there, here)
        (append_assoc (a e.0) (e.1 ∷ []) (targets es u)
          ∙ ap (λ k. a k ++ (e.1 ∷ targets es u)) (sym same))
  | no ne ↦
      let there : (u == e.0) ≡ false = ground arith in
      let here : (e.0 == u) ≡ false = ground arith in rw (there, here)
]

update-origins :
    (p : ℕ → List ℕ) (e : ℕ × ℕ) (es : List (ℕ × ℕ)) (v : ℕ)
    → update p e.1 (p e.1 ++ (e.0 ∷ [])) v ++ origins es v ≡ p v ++ origins (e ∷ es) v
unfolding origins
update-origins p e es v = elim (ℕ_discrete v e.1) [
  | yes same ↦
      let there : (v == e.1) ≡ true = ground arith in
      let here : (e.1 == v) ≡ true = ground arith in
      rw (there, here)
        (append_assoc (p e.1) (e.0 ∷ []) (origins es v)
          ∙ ap (λ k. p k ++ (e.0 ∷ origins es v)) (sym same))
  | no ne ↦
      let there : (v == e.1) ≡ false = ground arith in
      let here : (e.1 == v) ≡ false = ground arith in rw (there, here)
]

update-degree :
    (d : ℕ → ℕ) (e : ℕ × ℕ) (es : List (ℕ × ℕ)) (v : ℕ)
    → update d e.1 (d e.1 + 1) v + length (origins es v) ≡ d v + length (origins (e ∷ es) v)
unfolding origins
update-degree d e es v = elim (ℕ_discrete v e.1) [
  | yes same ↦ let at : d v ≡ d e.1 = ap d same in ground arith
  | no ne ↦ ground arith
]

-- Adding the connections succeeds, and appends the neighbours in their order.
pub add_edges-Holds :
    (n : ℕ) (es : List (ℕ × ℕ)) (t : Tables) (a p : ℕ → List ℕ) (d : ℕ → ℕ)
    → Holds n t a p d
    → AreValid n es
    → (t' : Tables) × (add_edges t es ≡ some t')
      × Holds n t'
          (λ u. a u ++ targets es u)
          (λ v. p v ++ origins es v)
          (λ v. d v + length (origins es v))
unfolding add_edges targets origins
add_edges-Holds n [] t a p d h valid = (
  t,
  refl,
  record {
    adjacency =
        IsTable-ext t.adjacency n a (λ u. a u ++ []) (λ u lt. sym (append-nil (a u))) h.adjacency;
    predecessors =
        IsTable-ext t.predecessors n p (λ v. p v ++ []) (λ v lt. sym (append-nil (p v)))
          h.predecessors;
    indegree = IsTable-ext t.indegree n d (λ v. d v + 0) (λ v lt. omega arith) h.indegree;
  },
)
add_edges-Holds n (e ∷ es) t a p d h (here, there) =
    let (t', e', h') = add_edge-Holds n t a p d e h here.0 here.1 in
    let (t'', e'', h'') =
      add_edges-Holds n es t' (update a e.0 (a e.0 ++ (e.1 ∷ [])))
        (update p e.1 (p e.1 ++ (e.0 ∷ []))) (update d e.1 (d e.1 + 1)) h' there in
    (
      t'',
      rw e' e'',
      record {
        adjacency =
            IsTable-ext t''.adjacency n _ (λ u. a u ++ targets (e ∷ es) u)
              (λ u lt. update-targets a e es u) h''.adjacency;
        predecessors =
            IsTable-ext t''.predecessors n _ (λ v. p v ++ origins (e ∷ es) v)
              (λ v lt. update-origins p e es v) h''.predecessors;
        indegree =
            IsTable-ext t''.indegree n _ (λ v. d v + length (origins (e ∷ es) v))
              (λ v lt. update-degree d e es v) h''.indegree;
      },
    )
