-- ===== src/Dsp/Graph/Rounds.antt =====
-- The rounds of Kahn's loop in crates/riaps-dsp/src/graph.rs keep the invariant of `Dsp.Graph.Kahn`.
use blockcat.Prelude.{
  ℕ, zero, suc, ◌+◌, ◌-◌, ◌≤◌, ◌<◌, ◌≡◌, ◌∙◌, refl, sym, ap, subst, arith, dec_lt, true, some, List,
  [], ◌∷◌, ◌++◌, length, length-append, count, length-count_le,
}
use blockcat.Dsp.Graph.{kahn, contains}
use blockcat.Dsp.Graph.Lookup.{IsTable}
use blockcat.Dsp.Graph.Edges.{AreValid, targets}
use blockcat.Dsp.Graph.Relax.{freed, relax_lem}
use blockcat.Dsp.Graph.Kahn.{
  unmet, position, position-append, position-append_last, count-last, count-first, unmet-last, met,
  targets-valid, Running,
}

module _ (n : ℕ) (es : List (ℕ × ℕ)) (valid : AreValid n es) where
  module _ (d : ℕ → ℕ) (u : ℕ) (queue order : List ℕ) (r : Running n es d (u ∷ queue) order) where
    -- The first node of the queue is new, and owes nothing.
    front : (u < n) × (count u order ≡ 0) × (d u ≡ 0)
    front =
        let one : count u (u ∷ queue) ≡ suc (count u queue) =
          (let e = count-first u u queue in ground arith) in
        let inside : u < n = elim (dec_lt u n) [
          | yes lt ↦ lt
          | no ge ↦ absurd (omega (arith, r.below u (omega arith), one))
        ] in
        elim (dec_lt 0 (d u)) [
          | yes pos ↦ absurd (omega (arith, r.waiting u inside pos, one))
          | no nil ↦ (inside, omega (arith, r.free u inside (omega arith), one), omega arith)
        ]

    room : (v : ℕ) → count v (targets es u) ≤ d v
    room v = elim (dec_lt v n) [
      | yes lt ↦ omega (arith, r.degree v lt, unmet-last es order u v front.1)
      | no ge ↦ omega (arith, targets-valid n es u v valid (omega arith))
    ]

    sorted_next :
        (w v : ℕ)
        → contains es w v ≡ true
        → 0 < count v (order ++ (u ∷ []))
        → (0 < count w (order ++ (u ∷ [])))
          × (position w (order ++ (u ∷ [])) < position v (order ++ (u ∷ [])))
    sorted_next w v edge there = elim (dec_lt 0 (count v order)) [
      | yes old ↦
          let (before, lt) = r.sorted w v edge old in
          let here = position-append w order (u ∷ []) before in
          let here' = position-append v order (u ∷ []) old in
          (omega (arith, count-last w u order), omega (arith, here, here', lt))
      | no fresh ↦
          let last = count-last v u order in
          let same : u ≡ v = ground arith in
          let before : 0 < count w order =
            met es order w v
              (subst (λ k. unmet es order k ≡ 0) same (sym (r.degree u front.0) ∙ front.2)) edge in
          let here = position-append w order (u ∷ []) before in
          let end : position v (order ++ (u ∷ [])) ≡ length order =
            ap (λ k. position k (order ++ (u ∷ []))) (sym same)
            ∙ position-append_last u order front.1 in
          (omega (arith, count-last w u order), omega (arith, here, end))
    ]

    -- One round.
    round-Running :
        (queue' : List ℕ)
        → ((v : ℕ) → count v queue' ≡ count v queue + freed d (targets es u) v)
        → Running n es (λ v. d v - count v (targets es u)) queue' (order ++ (u ∷ []))
    round-Running queue' counts = record {
      degree = λ v lt. omega (arith, r.degree v lt, unmet-last es order u v front.1);
      free = λ v lt e.
          let joins = counts v in
          let last = count-last v u order in
          let first = count-first v u queue in
          let most = room v in
          elim (dec_lt 0 (d v)) [
            | yes pos ↦ let before = r.waiting v lt pos in ground arith
            | no nil ↦ let before = r.free v lt (omega arith) in ground arith
          ];
      waiting = λ v lt pos.
          let joins = counts v in
          let last = count-last v u order in
          let first = count-first v u queue in
          let before = r.waiting v lt (omega arith) in ground arith;
      below = λ v le.
          let joins = counts v in
          let last = count-last v u order in
          let first = count-first v u queue in
          let none_there = targets-valid n es u v valid le in
          let before = r.below v le in ground arith;
      sorted = sorted_next;
    }

  -- The order holds no node twice, and only nodes.
  pub once :
      (d : ℕ → ℕ) (queue order : List ℕ) → Running n es d queue order → (v : ℕ) → count v order ≤ 1
  once d queue order r v = elim (dec_lt v n) [
    | yes lt ↦ elim (dec_lt 0 (d v)) [
      | yes pos ↦ omega (arith, r.waiting v lt pos)
      | no nil ↦ omega (arith, r.free v lt (omega arith))
    ]
    | no ge ↦ omega (arith, r.below v (omega arith))
  ]

  -- With more fuel than nodes the loop ends, without a panic.
  pub kahn_lem :
      (fuel : ℕ) (adjacency : List (List ℕ)) (ds queue order : List ℕ) (d : ℕ → ℕ)
      → IsTable adjacency n (targets es)
      → IsTable ds n d
      → Running n es d queue order
      → n < length order + fuel
      → (order' : List ℕ) × (d' : ℕ → ℕ) × (kahn fuel adjacency ds queue order ≡ some order')
        × Running n es d' [] order'
  unfolding kahn
  kahn_lem zero adjacency ds queue order d adj t r lt = absurd (
      omega (
        arith,
        length-count_le n order (once d queue order r) (λ v le. omega (arith, r.below v le)),
      ))
  kahn_lem (suc fuel) adjacency ds [] order d adj t r lt = (order, d, refl, r)
  kahn_lem (suc fuel) adjacency ds (u ∷ queue) order d adj t r lt =
      let (ds', queue', e, t', counts) =
        relax_lem n (targets es u) ds queue d t (room d u queue order r)
          (λ v le. targets-valid n es u v valid le) in
      let (order', d', e', r') =
        kahn_lem fuel adjacency ds' queue' (order ++ (u ∷ [])) (λ v. d v - count v (targets es u))
          adj t' (round-Running d u queue order r queue' counts)
          (omega (arith, length-append order (u ∷ []))) in
      (order', d', rw (adj.entry u (front d u queue order r).0, e) e', r')
