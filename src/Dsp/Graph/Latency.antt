-- ===== src/Dsp/Graph/Latency.antt =====
-- The path latencies in `compile` of crates/riaps-dsp/src/graph.rs.
use blockcat.Prelude.{
  ℕ, zero, suc, ◌<◌, ◌≡◌, ◌∙◌, refl, sym, ap, arith, none, some, List, [], ◌∷◌, ◌++◌, append_assoc,
  map, length, get_elem?, set, saturating_add, count, count-append,
}
use blockcat.Dsp.Graph.{DspNode, get_all, max_of, path_latencies}
use blockcat.Dsp.Graph.Lookup.{update, IsTable, set-IsTable}
use blockcat.Dsp.Graph.Edges.{AreValid, origins}
use blockcat.Dsp.Graph.Schedule.{
  IsBelow, IsOrder, head-IsBelow, tail-IsBelow, map-update, next_node, equations,
}
use blockcat.Dsp.Graph.Relax.{count-nil}

pub get_all-IsTable {ℓ} :
    {A : Type ℓ} (values : List A) (n : ℕ) (f : ℕ → A) (is : List ℕ)
    → IsTable values n f
    → IsBelow n is
    → get_all values is ≡ some (map f is)
unfolding get_all
get_all-IsTable values n f [] t below = refl
get_all-IsTable values n f (i ∷ is) t below = rw (
  t.entry i (head-IsBelow n i is below),
  get_all-IsTable values n f is t (tail-IsBelow n i is below),
)

pub origins-IsBelow : (n : ℕ) (es : List (ℕ × ℕ)) (v : ℕ) → AreValid n es → IsBelow n (origins es v)
unfolding origins count
origins-IsBelow n [] v valid w le = refl
origins-IsBelow n (e ∷ es) v valid w le =
    let rest = origins-IsBelow n es v valid.1 w le in let inside = valid.0.0 in ground arith

module _ {ℓ κ} {F : Type ℓ} {D : Type κ} (ops : DspNode F D) (nodes : List D) where
  -- The latency of a node by itself.
  unfoldable pub own_latency : ℕ → ℕ
  own_latency v = elim (get_elem? nodes v) [ none ↦ 0 | some node ↦ ops.latency_samples node ]

  -- What the latency of the paths that end in `v` is to be.
  abbrev pub through : List (ℕ × ℕ) → (ℕ → ℕ) → ℕ → ℕ
  through es f v = saturating_add (max_of (map f (origins es v))) (own_latency v)

  node_at : (xs : List D) (v : ℕ) → v < length xs → (node : D) × (get_elem? xs v ≡ some node)
  node_at [] v lt = absurd (omega arith)
  node_at (x ∷ xs) zero lt = (x, refl)
  node_at (x ∷ xs) (suc v) lt = node_at xs v (omega arith)

  own_of :
      (v : ℕ) (node : D) → get_elem? nodes v ≡ some node → own_latency v ≡ ops.latency_samples node
  unfolding own_latency
  own_of v node e = rw (own_latency, e)

  module _ (n : ℕ) (es : List (ℕ × ℕ)) (order : List ℕ) (predecessors : List (List ℕ))
      (size : length nodes ≡ n) (valid : AreValid n es) (sched : IsOrder n es order)
      (preds : IsTable predecessors n (origins es)) where
    unchanged :
        (f : ℕ → ℕ) (i x v : ℕ)
        → count i (origins es v) ≡ 0
        → through es (update f i x) v ≡ through es f v
    unchanged f i x v e =
        ap (λ xs. saturating_add (max_of xs) (own_latency v))
          (map-update (λ k. k) f i x (origins es v) e)

    pub path_latencies_lem :
        (rest done ls : List ℕ) (f : ℕ → ℕ)
        → order ≡ done ++ rest
        → IsTable ls n f
        → ((v : ℕ) → 0 < count v done → f v ≡ through es f v)
        → (ls' : List ℕ) × (f' : ℕ → ℕ) × (path_latencies ops nodes predecessors rest ls ≡ some ls')
          × IsTable ls' n f'
          × ((v : ℕ) → 0 < count v order → f' v ≡ through es f' v)
    unfolding path_latencies
    path_latencies_lem [] done ls f e t h = (
      ls,
      f,
      refl,
      t,
      λ v pos. h v (omega (arith, pos, ap (count v) e, count-append v done [], count-nil v)),
    )
    path_latencies_lem (i ∷ rest) done ls f e t h =
        let (inside, new) = next_node n es order sched i done rest e in
        let (node, found) = node_at nodes i (omega (arith, size)) in
        let (ls', f', e', t', h') =
          path_latencies_lem rest (done ++ (i ∷ [])) (set ls i (through es f i))
            (update f i (through es f i)) (e ∙ sym (append_assoc done (i ∷ []) rest))
            (set-IsTable ls n f i (through es f i) inside t)
            (equations n es order sched (through es) unchanged i done rest f e new h) in
        let own : own_latency i ≡ ops.latency_samples node = own_of i node found in
        (
          ls',
          f',
          rw
              (
                preds.entry i inside,
                get_all-IsTable ls n f (origins es i) t (origins-IsBelow n es i valid),
                found,
              )
              (ap
                  (λ k.
                    path_latencies ops nodes predecessors rest
                      (set ls i (saturating_add (max_of (map f (origins es i))) k)))
                  (sym own)
                ∙ e'),
          t',
          h',
        )
