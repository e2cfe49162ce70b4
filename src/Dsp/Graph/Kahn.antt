-- ===== src/Dsp/Graph/Kahn.antt =====
-- Kahn's loop in crates/riaps-dsp/src/graph.rs: it ends with the nodes that are on or behind no
-- cycle, each behind its predecessors.
use blockcat.Prelude.{
  ℕ, suc, ◌+◌, ◌≤◌, ◌<◌, ◌≡◌, ◌∙◌, refl, ap, subst, arith, ℕ_discrete, Bool-cases, inl, inr, true,
  false, ◌&&◌, List, [], ◌∷◌, ◌++◌, ◌==◌, if◌then◌else◌, length, count, count-append,
}
use blockcat.Dsp.Graph.{contains, same_edge}
use blockcat.Dsp.Graph.Edges.{AreValid, targets}

-- The connections to `v` from nodes that are not in `order`.
unfoldable pub unmet : List (ℕ × ℕ) → List ℕ → ℕ → ℕ
unmet [] order v = 0
unmet (e ∷ es) order v = (if (e.1 == v) && (count e.0 order == 0) then 1 else 0) + unmet es order v

-- Where `x` first stands in a list.
unfoldable pub position : ℕ → List ℕ → ℕ
position x [] = 0
position x (y ∷ ys) = if y == x then 0 else suc (position x ys)

pub position-append :
    (x : ℕ) (xs ys : List ℕ)
    → 0 < count x xs
    → (position x (xs ++ ys) ≡ position x xs) × (position x xs < length xs)
unfolding position count
position-append x [] ys h = absurd (omega arith)
position-append x (y ∷ xs) ys h = elim (ℕ_discrete y x) [
  | yes same ↦ let e : (y == x) ≡ true = ground arith in (rw e, rw e (omega arith))
  | no ne ↦
      let e : (y == x) ≡ false = ground arith in
      let (same, lt) = position-append x xs ys (ground arith) in
      (rw e (ap suc same), rw e (omega arith))
]

pub position-append_last :
    (u : ℕ) (xs : List ℕ) → count u xs ≡ 0 → position u (xs ++ (u ∷ [])) ≡ length xs
unfolding position count
position-append_last u [] h = ground arith
position-append_last u (y ∷ xs) h =
    let e : (y == u) ≡ false = ground arith in
    rw e (ap suc (position-append_last u xs (ground arith)))

pub count-last :
    (v u : ℕ) (xs : List ℕ) → count v (xs ++ (u ∷ [])) ≡ count v xs + (if u == v then 1 else 0)
unfolding count
count-last v u xs = omega (arith, count-append v xs (u ∷ []))

pub count-first :
    (v u : ℕ) (xs : List ℕ) → count v (u ∷ xs) ≡ (if u == v then 1 else 0) + count v xs
unfolding count
count-first v u xs = refl

-- A node that joins the order meets its connections.
pub unmet-last :
    (es : List (ℕ × ℕ)) (order : List ℕ) (u v : ℕ)
    → count u order ≡ 0
    → unmet es (order ++ (u ∷ [])) v + count v (targets es u) ≡ unmet es order v
unfolding unmet targets count
unmet-last [] order u v new = omega arith
unmet-last (e ∷ es) order u v new =
    let rest = unmet-last es order u v new in
    let more = count-last e.0 u order in
    elim (ℕ_discrete e.0 u) [
      | yes same ↦
          let out : count e.0 order ≡ 0 = ap (λ k. count k order) same ∙ new in ground arith
      | no ne ↦ ground arith
    ]

pub met :
    (es : List (ℕ × ℕ)) (order : List ℕ) (u v : ℕ)
    → unmet es order v ≡ 0
    → contains es u v ≡ true
    → 0 < count u order
unfolding unmet contains
met [] order u v none_left e = absurd (ground arith)
met (e ∷ es) order u v none_left there = elim (Bool-cases (same_edge e u v)) [
  | inl here ↦
      let from : e.0 ≡ u = ground arith in subst (λ k. 0 < count k order) from (ground arith)
  | inr other ↦ met es order u v (omega arith) (ground arith)
]

pub targets-valid :
    (n : ℕ) (es : List (ℕ × ℕ)) (u v : ℕ) → AreValid n es → n ≤ v → count v (targets es u) ≡ 0
unfolding targets count
targets-valid n [] u v valid le = refl
targets-valid n (e ∷ es) u v valid le =
    let rest = targets-valid n es u v valid.1 le in let inside = valid.0.1 in ground arith

pub record Running (n : ℕ) (es : List (ℕ × ℕ)) (d : ℕ → ℕ) (queue order : List ℕ) : Type 0 where
  pub degree : (v : ℕ) → v < n → d v ≡ unmet es order v
  pub free : (v : ℕ) → v < n → d v ≡ 0 → count v order + count v queue ≡ 1
  pub waiting : (v : ℕ) → v < n → 0 < d v → count v order + count v queue ≡ 0
  pub below : (v : ℕ) → n ≤ v → count v order + count v queue ≡ 0
  pub sorted :
      (u v : ℕ)
      → contains es u v ≡ true
      → 0 < count v order
      → (0 < count u order) × (position u order < position v order)
