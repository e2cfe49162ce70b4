-- ===== src/Dsp/Graph/Start.antt =====
-- Where Kahn's loop in crates/riaps-dsp/src/graph.rs starts, and what an order that it does not
-- complete means.
use blockcat.Prelude.{
  ℕ, zero, suc, ◌+◌, ◌≤◌, ◌<◌, ◌≡◌, ◌∙◌, refl, sym, ap, subst, arith, dec_lt, Bool, Bool-cases, inl,
  inr, true, false, ◌&&◌, Option, none, some, List, [], ◌∷◌, ◌==◌, if◌then◌else◌, length, get_elem?,
  count,
}
use blockcat.Dsp.Graph.{contains, same_edge, sources_from, sinks_from}
use blockcat.Dsp.Graph.Lookup.{IsTable}
use blockcat.Dsp.Graph.Edges.{AreValid, origins}
use blockcat.Dsp.Graph.Kahn.{unmet, Running}

unmet_empty : (es : List (ℕ × ℕ)) (v : ℕ) → unmet es [] v ≡ length (origins es v)
unfolding unmet origins count
unmet_empty [] v = refl
unmet_empty (e ∷ es) v = let rest = unmet_empty es v in ground arith

-- How often an index is listed for an entry.
abbrev listed {ℓ} : {A : Type ℓ} → (A → Bool) → Option A → ℕ
listed test none = 0
listed test (some x) = if test x then 1 else 0

abbrev is_zero : ℕ → Bool
is_zero d = d == 0

abbrev pub is_nil {ℓ} : {A : Type ℓ} → List A → Bool
is_nil [] = true
is_nil (x ∷ xs) = false

count-sources_before : (i v : ℕ) (ds : List ℕ) → v < i → count v (sources_from i ds) ≡ 0
unfolding sources_from count
count-sources_before i v [] lt = refl
count-sources_before i v (d ∷ ds) lt =
    let rest = count-sources_before (i + 1) v ds (omega arith) in ground arith

count-sources :
    (i v : ℕ) (ds : List ℕ) → count (i + v) (sources_from i ds) ≡ listed is_zero (get_elem? ds v)
unfolding sources_from count
count-sources i v [] = refl
count-sources i zero (d ∷ ds) =
    let rest = count-sources_before (i + 1) (i + 0) ds (omega arith) in
    let same : i + 0 ≡ i = omega arith in ground arith
count-sources i (suc v) (d ∷ ds) =
    let rest = count-sources (i + 1) v ds in
    let same : i + 1 + v ≡ i + suc v = omega arith in
    let rest' =
      subst (λ k. count k (sources_from (i + 1) ds) ≡ listed is_zero (get_elem? ds v)) same rest in
    ground arith

count-sinks_before : (i v : ℕ) (rows : List (List ℕ)) → v < i → count v (sinks_from i rows) ≡ 0
unfolding sinks_from count
count-sinks_before i v [] lt = refl
count-sinks_before i v ([] ∷ rows) lt =
    let rest = count-sinks_before (i + 1) v rows (omega arith) in ground arith
count-sinks_before i v ((x ∷ xs) ∷ rows) lt = count-sinks_before (i + 1) v rows (omega arith)

count-sinks :
    (i v : ℕ) (rows : List (List ℕ))
    → count (i + v) (sinks_from i rows) ≡ listed is_nil (get_elem? rows v)
unfolding sinks_from count
count-sinks i v [] = refl
count-sinks i zero ([] ∷ rows) =
    let rest = count-sinks_before (i + 1) (i + 0) rows (omega arith) in
    let same : i + 0 ≡ i = omega arith in ground arith
count-sinks i zero ((x ∷ xs) ∷ rows) = count-sinks_before (i + 1) (i + 0) rows (omega arith)
count-sinks i (suc v) ([] ∷ rows) =
    let rest : count (i + suc v) (sinks_from (i + 1) rows) ≡ listed is_nil (get_elem? rows v) =
      subst (λ k. count k (sinks_from (i + 1) rows) ≡ listed is_nil (get_elem? rows v))
        (omega arith) (count-sinks (i + 1) v rows) in
    let other : (i == i + suc v) ≡ false = ground arith in rw other (omega (arith, rest))
count-sinks i (suc v) ((x ∷ xs) ∷ rows) =
    subst (λ k. count k (sinks_from (i + 1) rows) ≡ listed is_nil (get_elem? rows v)) (omega arith)
      (count-sinks (i + 1) v rows)

get_elem?-none {ℓ} : {A : Type ℓ} (xs : List A) (i : ℕ) → length xs ≤ i → get_elem? xs i ≡ none
get_elem?-none [] i le = refl
get_elem?-none (x ∷ xs) zero le = absurd (omega arith)
get_elem?-none (x ∷ xs) (suc i) le = get_elem?-none xs i (omega arith)

module _ (n : ℕ) where
  -- The indices with degree 0, each once.
  sources-table :
      (ds : List ℕ) (d : ℕ → ℕ)
      → IsTable ds n d
      → ((v : ℕ) → v < n → count v (sources_from 0 ds) ≡ (if d v == 0 then 1 else 0))
        × ((v : ℕ) → n ≤ v → count v (sources_from 0 ds) ≡ 0)
  sources-table ds d t = (
    λ v lt. at v ∙ ap (listed is_zero) (t.entry v lt),
    λ v le. at v ∙ ap (listed is_zero) (get_elem?-none ds v (omega (arith, t.size))),
  )
    where
      at : (v : ℕ) → count v (sources_from 0 ds) ≡ listed is_zero (get_elem? ds v)
      at v =
          subst (λ k. count k (sources_from 0 ds) ≡ listed is_zero (get_elem? ds v)) (omega arith)
            (count-sources 0 v ds)

  -- The indices of the nodes that lead nowhere, each once.
  pub sinks-table :
      (rows : List (List ℕ)) (a : ℕ → List ℕ)
      → IsTable rows n a
      → ((v : ℕ) → v < n → count v (sinks_from 0 rows) ≡ (if is_nil (a v) then 1 else 0))
        × ((v : ℕ) → n ≤ v → count v (sinks_from 0 rows) ≡ 0)
  sinks-table rows a t = (
    λ v lt. at v ∙ ap (listed is_nil) (t.entry v lt),
    λ v le. at v ∙ ap (listed is_nil) (get_elem?-none rows v (omega (arith, t.size))),
  )
    where
      at : (v : ℕ) → count v (sinks_from 0 rows) ≡ listed is_nil (get_elem? rows v)
      at v =
          subst (λ k. count k (sinks_from 0 rows) ≡ listed is_nil (get_elem? rows v)) (omega arith)
            (count-sinks 0 v rows)

  pub start-Running :
      (es : List (ℕ × ℕ)) (ds : List ℕ)
      → IsTable ds n (λ v. length (origins es v))
      → Running n es (λ v. length (origins es v)) (sources_from 0 ds) []
  unfolding count
  start-Running es ds t =
      let (inside, outside) = sources-table ds (λ v. length (origins es v)) t in
      record {
        degree = λ v lt. sym (unmet_empty es v);
        free = λ v lt e. let here = inside v lt in ground arith;
        waiting = λ v lt pos. let here = inside v lt in ground arith;
        below = λ v le. omega (arith, outside v le);
        sorted = λ u v e pos. absurd (omega arith);
      }

-- A connection that is not met.
unmet_witness :
    (n : ℕ) (es : List (ℕ × ℕ)) (order : List ℕ) (v : ℕ)
    → AreValid n es
    → 0 < unmet es order v
    → (u : ℕ) × (u < n) × (contains es u v ≡ true) × (count u order ≡ 0)
unfolding unmet contains
unmet_witness n [] order v valid pos = absurd (omega arith)
unmet_witness n (e ∷ es) order v valid pos =
    elim (Bool-cases ((e.1 == v) && (count e.0 order == 0))) [
      | inl here ↦
          let same : same_edge e e.0 v ≡ true = ground arith in
          (e.0, valid.0.0, rw same, ground arith)
      | inr other ↦
          let (u, lt, there, new) = unmet_witness n es order v valid.1 (ground arith) in
          (u, lt, (ground arith), new)
    ]

-- Where the connections only lead to nodes of a higher rank, all nodes are ordered in the end.
pub all_ordered :
    (n : ℕ) (es : List (ℕ × ℕ)) (d : ℕ → ℕ) (order : List ℕ) (rank : ℕ → ℕ)
    → AreValid n es
    → Running n es d [] order
    → ((u v : ℕ) → contains es u v ≡ true → rank u < rank v)
    → (k v : ℕ) → rank v < k
    → v < n
    → count v order ≡ 1
unfolding count
all_ordered n es d order rank valid r up zero v lt inside = absurd (omega arith)
all_ordered n es d order rank valid r up (suc k) v lt inside = elim (dec_lt 0 (d v)) [
  | yes pos ↦
      let (u, inside', edge, new) =
        unmet_witness n es order v valid (omega (arith, r.degree v inside)) in
      absurd (
        omega (
          arith,
          all_ordered n es d order rank valid r up k u (omega (arith, up u v edge)) inside',
          new,
        ))
  | no nil ↦ omega (arith, r.free v inside (omega arith))
]
