-- ===== src/Dsp/Graph/Schedule.antt =====
-- A computation that visits the nodes of crates/riaps-dsp/src/graph.rs in a topological order, each
-- from the values of its predecessors, as `compile` and `process` do.
use blockcat.Prelude.{
  ℕ, suc, ◌+◌, ◌≤◌, ◌<◌, ◌≡◌, ◌≢◌, ◌∙◌, refl, sym, ap, arith, ℕ_discrete, dec_lt, Bool-cases, inl,
  inr, true, false, List, [], ◌∷◌, ◌++◌, map, ◌==◌, length, count, count-append,
}
use blockcat.Dsp.Graph.{contains, same_edge}
use blockcat.Dsp.Graph.Lookup.{update}
use blockcat.Dsp.Graph.Edges.{origins}
use blockcat.Dsp.Graph.Kahn.{position, position-append, count-first}
use blockcat.Dsp.Graph.Relax.{count-cons_self, count-nil}

-- All of a list is below `n`.
abbrev pub IsBelow : ℕ → List ℕ → Type 0
IsBelow n xs = (v : ℕ) → n ≤ v → count v xs ≡ 0

pub head-IsBelow : (n x : ℕ) (xs : List ℕ) → IsBelow n (x ∷ xs) → x < n
unfolding count
head-IsBelow n x xs below = elim (dec_lt x n) [
  | yes lt ↦ lt
  | no ge ↦ absurd (let e = below x (omega arith) in ground arith)
]

pub tail-IsBelow : (n x : ℕ) (xs : List ℕ) → IsBelow n (x ∷ xs) → IsBelow n xs
unfolding count
tail-IsBelow n x xs below v le = omega (arith, below v le)

pub map-update {ℓ κ} :
    {X : Type ℓ} {Y : Type κ} (h : X → Y) (f : ℕ → X) (i : ℕ) (x : X) (vs : List ℕ)
    → count i vs ≡ 0
    → map (λ v. h (update f i x v)) vs ≡ map (λ v. h (f v)) vs
unfolding count
map-update h f i x [] e = refl
map-update h f i x (v ∷ vs) e =
    let other : (v == i) ≡ false = ground arith in rw (other, map-update h f i x vs (omega arith))

contains-origins :
    (es : List (ℕ × ℕ)) (u v : ℕ) → 0 < count u (origins es v) → contains es u v ≡ true
unfolding contains origins count
contains-origins [] u v h = absurd (omega arith)
contains-origins (e ∷ es) u v h = elim (Bool-cases (same_edge e u v)) [
  | inl here ↦ rw here
  | inr other ↦ let rest = contains-origins es u v (ground arith) in ground arith
]

position-middle :
    (i : ℕ) (done rest : List ℕ) → count i done ≡ 0 → position i (done ++ (i ∷ rest)) ≡ length done
unfolding position count
position-middle i [] rest e = ground arith
position-middle i (x ∷ done) rest e =
    let other : (x == i) ≡ false = ground arith in
    rw other (ap suc (position-middle i done rest (ground arith)))

-- A topological order of all nodes.
pub record IsOrder (n : ℕ) (es : List (ℕ × ℕ)) (order : List ℕ) : Type 0 where
  pub all : (v : ℕ) → v < n → count v order ≡ 1
  pub below : IsBelow n order
  pub sorted : (u v : ℕ) → contains es u v ≡ true → position u order < position v order

pub done_none :
    (v i : ℕ) (done : List ℕ)
    → count v (done ++ (i ∷ [])) ≡ 0
    → (count v done ≡ 0) × ((v == i) ≡ false)
unfolding count
done_none v i done e =
    let more = count-append v done (i ∷ []) in (omega (arith, more, e), ground arith)

module _ (n : ℕ) (es : List (ℕ × ℕ)) (order : List ℕ) (sched : IsOrder n es order) where
  -- A node that comes later is none of the predecessors.
  not_before :
      (i v : ℕ) (done rest : List ℕ)
      → order ≡ done ++ (i ∷ rest)
      → count i done ≡ 0
      → position v order ≤ length done
      → count i (origins es v) ≡ 0
  not_before i v done rest e new early = elim (dec_lt 0 (count i (origins es v))) [
    | yes pos ↦ absurd (
        omega (
          arith,
          sched.sorted i v (contains-origins es i v pos),
          ap (position i) e ∙ position-middle i done rest new,
          early,
        ))
    | no none_there ↦ omega arith
  ]

  -- The next node of the order is one of the nodes, and not done yet.
  pub next_node :
      (i : ℕ) (done rest : List ℕ) → order ≡ done ++ (i ∷ rest) → (i < n) × (count i done ≡ 0)
  next_node i done rest e =
      let split : count i order ≡ count i done + suc (count i rest) =
        ap (count i) e
        ∙ count-append i done (i ∷ rest)
        ∙ ap (λ k. count i done + k) (count-cons_self i rest) in
      let inside : i < n = elim (dec_lt i n) [
        | yes lt ↦ lt
        | no ge ↦ absurd (omega (arith, sched.below i (omega arith), split))
      ] in
      (inside, omega (arith, sched.all i inside, split))

  pub done_last :
      (v i : ℕ) (done : List ℕ) → 0 < count v (done ++ (i ∷ [])) → v ≢ i → 0 < count v done
  done_last v i done pos ne =
      let other : (v == i) ≡ false = ground arith in
      let first = count-first v i [] in
      let more = count-append v done (i ∷ []) in let end = count-nil v in ground arith

  module _ {ℓ} {X : Type ℓ} (value : (ℕ → X) → ℕ → X)
      (local : (f : ℕ → X) (i : ℕ) (x : X) (v : ℕ)
        → count i (origins es v) ≡ 0
        → value (update f i x) v ≡ value f v) where
    -- The equations for the nodes done, after the write for the node `i`.
    pub equations :
        (i : ℕ) (done rest : List ℕ) (f : ℕ → X)
        → order ≡ done ++ (i ∷ rest)
        → count i done ≡ 0
        → ((v : ℕ) → 0 < count v done → f v ≡ value f v)
        → (v : ℕ) → 0 < count v (done ++ (i ∷ []))
        → update f i (value f i) v ≡ value (update f i (value f i)) v
    equations i done rest f e new h v pos = elim (ℕ_discrete v i) [
      | yes same ↦
          let here : (v == i) ≡ true = ground arith in
          let early : position v order ≤ length done = omega (
            arith,
            ap (λ k. position k order) same,
            ap (position i) e,
            position-middle i done rest new,
          ) in
          rw here (
            ap (value f) (sym same)
            ∙ sym (local f i (value f i) v (not_before i v done rest e new early)))
      | no ne ↦
          let other : (v == i) ≡ false = ground arith in
          let old : 0 < count v done = done_last v i done pos ne in
          let place = position-append v done (i ∷ rest) old in
          let early : position v order ≤ length done = omega (arith, ap (position v) e, place) in
          rw other (h v old ∙ sym (local f i (value f i) v (not_before i v done rest e new early)))
    ]
