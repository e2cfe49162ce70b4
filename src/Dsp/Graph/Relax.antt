-- ===== src/Dsp/Graph/Relax.antt =====
-- One round of Kahn's loop in crates/riaps-dsp/src/graph.rs: the degrees of the successors of a node.
use blockcat.Prelude.{
  ℕ, suc, ◌+◌, ◌-◌, ◌≤◌, ◌<◌, ◌≡◌, ◌∙◌, refl, ap, arith, ℕ_discrete, dec_lt, Bool-cases, inl, inr,
  true, ◌&&◌, some, List, [], ◌∷◌, ◌++◌, ◌==◌, ltb, if◌then◌else◌, set, count, count-append,
}
use blockcat.Dsp.Graph.{relax}
use blockcat.Dsp.Graph.Lookup.{update, IsTable, IsTable-ext, set-IsTable}

-- Whether `v` gets free: it stands in `vs` as often as its degree says.
abbrev pub freed : (ℕ → ℕ) → List ℕ → ℕ → ℕ
freed d vs v = if ltb 0 (count v vs) && (d v == count v vs) then 1 else 0

relax_degree :
    (d : ℕ → ℕ) (w : ℕ) (ws : List ℕ) (v : ℕ)
    → update d w (d w - 1) v - count v ws ≡ d v - count v (w ∷ ws)
unfolding count
relax_degree d w ws v = elim (ℕ_discrete v w) [
  | yes same ↦ let at : d v ≡ d w = ap d same in ground arith
  | no ne ↦ ground arith
]

relax_room :
    (d : ℕ → ℕ) (w : ℕ) (ws : List ℕ) (v : ℕ)
    → count v (w ∷ ws) ≤ d v
    → count v ws ≤ update d w (d w - 1) v
unfolding count
relax_room d w ws v h = elim (ℕ_discrete v w) [
  | yes same ↦ let at : d v ≡ d w = ap d same in ground arith
  | no ne ↦ ground arith
]

-- The queue after the step for `w`.
abbrev joined : (ℕ → ℕ) → ℕ → List ℕ → List ℕ
joined d w queue = if d w - 1 == 0 then queue ++ (w ∷ []) else queue

count-joined :
    (d : ℕ → ℕ) (w : ℕ) (queue : List ℕ) (v : ℕ)
    → count v (joined d w queue) ≡ count v queue + (if d w - 1 == 0 then count v (w ∷ []) else 0)
count-joined d w queue v = elim (Bool-cases (d w - 1 == 0)) [
  | inl e ↦ rw e (count-append v queue (w ∷ []))
  | inr e ↦ rw e (omega arith)
]

relax_freed :
    (d : ℕ → ℕ) (w : ℕ) (ws : List ℕ) (v : ℕ)
    → count w (w ∷ ws) ≤ d w
    → (if d w - 1 == 0 then count v (w ∷ []) else 0) + freed (update d w (d w - 1)) ws v
      ≡ freed d (w ∷ ws) v
unfolding count
relax_freed d w ws v h = elim (ℕ_discrete v w) [
  | yes same ↦
      let at : d v ≡ d w = ap d same in
      let as_often : count v ws ≡ count w ws = ap (λ k. count k ws) same in ground arith
  | no ne ↦ ground arith
]

pub count-cons_self : (w : ℕ) (ws : List ℕ) → count w (w ∷ ws) ≡ suc (count w ws)
unfolding count
count-cons_self w ws = ground arith

count-cons_le : (v w : ℕ) (ws : List ℕ) → count v ws ≤ count v (w ∷ ws)
unfolding count
count-cons_le v w ws = omega arith

pub count-nil : (v : ℕ) → count v [] ≡ 0
unfolding count
count-nil v = refl

-- No degree goes below 0, and a node joins the queue when its degree reaches 0.
pub relax_lem :
    (n : ℕ) (vs ds queue : List ℕ) (d : ℕ → ℕ)
    → IsTable ds n d
    → ((v : ℕ) → count v vs ≤ d v)
    → ((v : ℕ) → n ≤ v → count v vs ≡ 0)
    → (ds' queue' : List ℕ) × (relax vs ds queue ≡ some (ds', queue'))
      × IsTable ds' n (λ v. d v - count v vs)
      × ((v : ℕ) → count v queue' ≡ count v queue + freed d vs v)
unfolding relax
relax_lem n [] ds queue d t room below = (
  ds,
  queue,
  refl,
  IsTable-ext ds n d (λ v. d v - count v []) (λ v lt. omega (arith, count-nil v)) t,
  λ v. let e = count-nil v in ground arith,
)
relax_lem n (w ∷ ws) ds queue d t room below =
    let here : count w (w ∷ ws) ≡ suc (count w ws) = count-cons_self w ws in
    let inside : w < n = elim (dec_lt w n) [
      | yes lt ↦ lt
      | no ge ↦ absurd (omega (arith, below w (omega arith), here))
    ] in
    let (ds', queue', e, t', counts) =
      relax_lem n ws (set ds w (d w - 1)) (joined d w queue) (update d w (d w - 1))
        (set-IsTable ds n d w (d w - 1) inside t) (λ v. relax_room d w ws v (room v))
        (λ v le. omega (arith, below v le, count-cons_le v w ws)) in
    let positive : ltb 0 (d w) ≡ true = ground (arith, room w, here) in
    (
      ds',
      queue',
      rw (t.entry w inside, positive) e,
      IsTable-ext ds' n _ (λ v. d v - count v (w ∷ ws)) (λ v lt. relax_degree d w ws v) t',
      λ v.
          counts v
          ∙ ap (λ k. k + freed (update d w (d w - 1)) ws v) (count-joined d w queue v)
          ∙ omega (arith, relax_freed d w ws v (room w)),
    )
