-- ===== src/Dsp/Publication/Safety.antt =====
-- Every step of crates/riaps-dsp/src/graph.rs keeps the invariant of `Dsp.Publication.Invariant`.
use mathlib.Core.List.{map-append}
use blockcat.Prelude.{
  ℕ, ◌+◌, ◌≡◌, ◌≢◌, ◌∙◌, refl, sym, ap, subst, arith, ℕ_discrete, true, false, some, List, ◌∷◌,
  ◌++◌, ◌==◌, if◌then◌else◌, wrapping_add, count, count-middle,
}
use blockcat.Dsp.Publication.{
  Reader, idle, claimed, loaded, stored, pinned, cleared, RetiredDspGraph, Publication, goes,
  pointers, held, new, Step, claim, refuse, load, store, accept, retry, clear, release, swap,
  retire, keep, reclaim, take_back, forget, Reachable, start, next,
}
use blockcat.Dsp.Publication.Invariant.{
  Fits, is_idle, IsSafe, all_idle, others_idle, Fits-idle, moves, busy_moves, controls, at,
}

-- The graph at `p` is the current one, and is held once.
current-once : (s : Publication) → IsSafe s → held s s.current ≡ 1
unfolding count
current-once s safe =
    let e : (s.current == s.current) ≡ true = ground arith in
    let most = safe.once s.current in ground arith

module _ (s : Publication) (q : ℕ) where
  pub held-swap :
      (p : ℕ)
      → held (record s { current = p; swapping = s.current ∷ s.swapping }) q
        ≡ (if p == q then 1 else 0) + held s q
  unfolding count
  held-swap p = omega arith

  pub held-retire :
      (before : List ℕ) (old : ℕ) (after : List ℕ) (v w : ℕ)
      → s.swapping ≡ before ++ (old ∷ after)
      → held
          (record s {
            version = v;
            swapping = before ++ after;
            tokens = record { pointer = old; retired_at_version = w } ∷ s.tokens;
          })
          q
        ≡ held s q
  unfolding count
  held-retire before old after v w e =
      omega (arith, ap (count q) e, count-middle q old before after)

  pub held-reclaim :
      (before : List RetiredDspGraph) (t : RetiredDspGraph) (after : List RetiredDspGraph)
      → s.tokens ≡ before ++ (t ∷ after)
      → held s q
        ≡ (if t.pointer == q then 1 else 0) + held (record s { tokens = before ++ after }) q
  unfolding count
  held-reclaim before t after e = omega (
    arith,
    ap (λ ts. count q (pointers ts)) e,
    ap (count q) (map-append (λ u. u.pointer) before (t ∷ after)),
    ap (count q) (map-append (λ u. u.pointer) before after),
    count-middle q t.pointer (pointers before) (pointers after),
  )

  pub held-forget :
      (before : List RetiredDspGraph) (t : RetiredDspGraph) (after : List RetiredDspGraph)
      → s.tokens ≡ before ++ (t ∷ after)
      → held (record s { tokens = before ++ after; leaked = t.pointer ∷ s.leaked }) q ≡ held s q
  unfolding count
  held-forget before t after e = omega (arith, held-reclaim before t after e)

module _ (s : Publication) (safe : IsSafe s) where
  -- A token goes whose graph is not in the hazard.
  reclaimed-IsSafe :
      (s' : Publication) (before : List RetiredDspGraph) (t : RetiredDspGraph)
      (after : List RetiredDspGraph)
      → s.tokens ≡ before ++ (t ∷ after)
      → s.hazard ≢ some t.pointer
      → ((j : ℕ) → s'.readers j ≡ s.readers j)
      → s'.pin_active ≡ s.pin_active
      → s'.hazard ≡ s.hazard
      → ((q : ℕ) → held s' q ≡ held (record s { tokens = before ++ after }) q)
      → IsSafe s'
  reclaimed-IsSafe s' before t after e ne readers active hazard same =
      controls s safe s' readers active hazard
        (λ q h one. elim (ℕ_discrete t.pointer q) [
          | yes here ↦ absurd (ne (h ∙ ap some (sym here)))
          | no other ↦
              let now = held-reclaim s q before t after e in let also = same q in ground arith
        ])
        (λ q. omega (arith, held-reclaim s q before t after e, safe.once q, same q))

  Step-IsSafe : (s' : Publication) → Step s s' → IsSafe s'
  unfolding Fits is_idle
  Step-IsSafe _ (claim i e off) =
      let s' : Publication = record s { pin_active = true; readers = goes s.readers i claimed } in
      moves s safe s' i claimed (λ j. refl) refl
        (λ j ne. Fits-idle s' (s.readers j) (all_idle s safe off j))
        (λ j ne _. all_idle s safe off j) safe.once
  Step-IsSafe _ (refuse i e on) = safe
  Step-IsSafe _ (load i e) =
      busy_moves s safe _ i (loaded s.current) (ap is_idle e) (λ j. refl) (at s safe i claimed e)
        safe.once
  Step-IsSafe _ (store i p e) =
      busy_moves s safe _ i (stored p) (ap is_idle e) (λ j. refl) (at s safe i (loaded p) e, refl)
        safe.once
  Step-IsSafe _ (accept i p e same) =
      let (on, hazard) = at s safe i (stored p) e in
      busy_moves s safe _ i (pinned p) (ap is_idle e) (λ j. refl)
        (on, hazard, subst (λ q. held s q ≡ 1) same (current-once s safe)) safe.once
  Step-IsSafe _ (retry i p e ne) =
      busy_moves s safe _ i claimed (ap is_idle e) (λ j. refl) (at s safe i (stored p) e).0
        safe.once
  Step-IsSafe _ (clear i p e) =
      busy_moves s safe _ i cleared (ap is_idle e) (λ j. refl) (at s safe i (pinned p) e).0
        safe.once
  Step-IsSafe _ (release i e) = busy_moves s safe _ i idle (ap is_idle e) (λ j. refl) tt safe.once
  Step-IsSafe _ (swap p free) =
      controls s safe _ (λ j. refl) refl refl
        (λ q h one.
          let ne : (p == q) ≡ false = absent q one in let now = held-swap s q p in ground arith)
        (λ q.
          let now = held-swap s q p in
          let most = safe.once q in
          elim (ℕ_discrete p q) [
            | yes same ↦ let none_yet = subst (λ k. held s k ≡ 0) same free in ground arith
            | no ne ↦ ground arith
          ])
    where
      absent : (q : ℕ) → held s q ≡ 1 → (p == q) ≡ false
      absent q one = elim (ℕ_discrete p q) [
        | yes same ↦ absurd (let none_yet = subst (λ k. held s k ≡ 0) same free in omega arith)
        | no ne ↦ ground arith
      ]
  Step-IsSafe _ (retire before old after e) =
      controls s safe _ (λ j. refl) refl refl
        (λ q h one.
          held-retire s q before old after (wrapping_add s.version 1) (wrapping_add s.version 1) e
          ∙ one)
        (λ q. omega (
          arith,
          held-retire s q before old after (wrapping_add s.version 1) (wrapping_add s.version 1) e,
          safe.once q,
        ))
  Step-IsSafe _ (keep before t after e h) = safe
  Step-IsSafe _ (reclaim before t after e ne) =
      reclaimed-IsSafe _ before t after e ne (λ j. refl) refl refl (λ q. refl)
  Step-IsSafe _ (take_back before t after e ne) =
      reclaimed-IsSafe _ before t after e ne (λ j. refl) refl refl (λ q. refl)
  Step-IsSafe _ (forget before t after e) =
      controls s safe _ (λ j. refl) refl refl (λ q h one. held-forget s q before t after e ∙ one)
        (λ q. omega (arith, held-forget s q before t after e, safe.once q))

new-IsSafe : (initial : ℕ) → IsSafe (new initial)
unfolding new Fits is_idle count
new-IsSafe initial = record {
  fits = λ i. tt;
  alone = λ i j busy busy'. absurd (ground arith);
  once = λ p. ground arith;
}

Reachable-IsSafe : (initial : ℕ) (s : Publication) → Reachable initial s → IsSafe s
Reachable-IsSafe initial _ start = new-IsSafe initial
Reachable-IsSafe initial _ (next s s' r step) = Step-IsSafe s (Reachable-IsSafe initial s r) s' step

idle_of : (r : Reader) → is_idle r ≡ true → r ≡ idle
unfolding is_idle
idle_of idle e = refl
idle_of claimed e = absurd (ground arith)
idle_of (loaded p) e = absurd (ground arith)
idle_of (stored p) e = absurd (ground arith)
idle_of (pinned p) e = absurd (ground arith)
idle_of cleared e = absurd (ground arith)

-- In every state that a handle can come to, in any sequentially consistent interleaving of readers,
-- swaps, reclamations and drops of tokens, and with addresses used again: a graph that a guard pins
-- is held exactly once, as the current graph, in a swap, or by a token that is not reclaimed, dropped
-- or not; the hazard names it; and no other thread is between its claim of the pin and the end of its
-- guard.
pub pinned_is_protected :
    (initial : ℕ) (s : Publication) (i p : ℕ)
    → Reachable initial s
    → s.readers i ≡ pinned p
    → (held s p ≡ 1) × (s.hazard ≡ some p) × ((j : ℕ) → j ≢ i → s.readers j ≡ idle)
unfolding Fits is_idle
pinned_is_protected initial s i p r e =
    let safe = Reachable-IsSafe initial s r in
    let (on, hazard, one) = at s safe i (pinned p) e in
    (one, hazard, λ j ne. idle_of (s.readers j) (others_idle s safe i j (ap is_idle e) ne))
