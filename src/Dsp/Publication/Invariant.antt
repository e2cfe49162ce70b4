-- ===== src/Dsp/Publication/Invariant.antt =====
-- A graph that a guard of crates/riaps-dsp/src/graph.rs pins is not reclaimed, and only one guard
-- exists at a time.

use blockcat.Prelude.{
  ℕ, ◌≤◌, ◌≡◌, ◌≢◌, ◌∙◌, sym, ap, subst, arith, ℕ_discrete, Bool, Bool-cases, inl, inr, true, false,
  some, ◌==◌,
}
use blockcat.Dsp.Publication.{
  Reader, idle, claimed, loaded, stored, pinned, cleared, Publication, goes, held,
}

-- What the shared state owes to a reader where it stands.
unfoldable pub Fits : Publication → Reader → Type 0
Fits s idle = Unit
Fits s claimed = s.pin_active ≡ true
Fits s (loaded p) = s.pin_active ≡ true
Fits s (stored p) = (s.pin_active ≡ true) × (s.hazard ≡ some p)
Fits s (pinned p) = (s.pin_active ≡ true) × (s.hazard ≡ some p) × (held s p ≡ 1)
Fits s cleared = s.pin_active ≡ true

unfoldable pub is_idle : Reader → Bool
is_idle idle = true
is_idle _ = false

pub record IsSafe (s : Publication) : Type 0 where
  pub fits : (i : ℕ) → Fits s (s.readers i)
  pub alone : (i j : ℕ) → is_idle (s.readers i) ≡ false → is_idle (s.readers j) ≡ false → i ≡ j
  pub once : (p : ℕ) → held s p ≤ 1

-- A thread that is not idle holds `pin_active`.
active : (s : Publication) (r : Reader) → Fits s r → is_idle r ≡ false → s.pin_active ≡ true
unfolding Fits is_idle
active s idle f e = absurd (ground arith)
active s claimed f e = f
active s (loaded p) f e = f
active s (stored p) f e = f.0
active s (pinned p) f e = f.0
active s cleared f e = f

module _ (readers : ℕ → Reader) (i : ℕ) (r : Reader) where
  pub goes_same : goes readers i r i ≡ r
  goes_same = let e : (i == i) ≡ true = ground arith in rw e

  goes_other : (j : ℕ) → j ≢ i → goes readers i r j ≡ readers j
  goes_other j ne = let e : (j == i) ≡ false = ground arith in rw e

pub Fits-idle : (s : Publication) (r : Reader) → is_idle r ≡ true → Fits s r
unfolding Fits is_idle
Fits-idle s idle e = tt
Fits-idle s claimed e = absurd (ground arith)
Fits-idle s (loaded p) e = absurd (ground arith)
Fits-idle s (stored p) e = absurd (ground arith)
Fits-idle s (pinned p) e = absurd (ground arith)
Fits-idle s cleared e = absurd (ground arith)

-- A step that leaves `pin_active`, the hazard and the graph in the hazard as they are.
Fits-same :
    (s s' : Publication) (r : Reader)
    → s'.pin_active ≡ s.pin_active
    → s'.hazard ≡ s.hazard
    → ((p : ℕ) → s.hazard ≡ some p → held s p ≡ 1 → held s' p ≡ 1)
    → Fits s r
    → Fits s' r
unfolding Fits
Fits-same s s' idle a h g f = tt
Fits-same s s' claimed a h g f = a ∙ f
Fits-same s s' (loaded p) a h g f = a ∙ f
Fits-same s s' (stored p) a h g f = (a ∙ f.0, h ∙ f.1)
Fits-same s s' (pinned p) a h g f = (a ∙ f.0, h ∙ f.1, g p f.1 f.2)
Fits-same s s' cleared a h g f = a ∙ f

module _ (s : Publication) (safe : IsSafe s) where
  pub all_idle : s.pin_active ≡ false → (j : ℕ) → is_idle (s.readers j) ≡ true
  all_idle off j = elim (Bool-cases (is_idle (s.readers j))) [
    | inl e ↦ e
    | inr e ↦ absurd (let on = active s (s.readers j) (safe.fits j) e in ground arith)
  ]

  pub others_idle : (i j : ℕ) → is_idle (s.readers i) ≡ false → j ≢ i → is_idle (s.readers j) ≡ true
  others_idle i j busy ne = elim (Bool-cases (is_idle (s.readers j))) [
    | inl e ↦ e
    | inr e ↦ absurd (ne (safe.alone j i e busy))
  ]

  -- A step of thread `i`, to `r`.
  pub moves :
      (s' : Publication) (i : ℕ) (r : Reader)
      → ((j : ℕ) → s'.readers j ≡ goes s.readers i r j)
      → Fits s' r
      → ((j : ℕ) → j ≢ i → Fits s' (s.readers j))
      → ((j : ℕ) → j ≢ i → is_idle r ≡ false → is_idle (s.readers j) ≡ true)
      → ((p : ℕ) → held s' p ≤ 1)
      → IsSafe s'
  moves s' i r e mine theirs free once = record {
    fits = λ j. elim (ℕ_discrete j i) [
      | yes same ↦ subst (Fits s') (sym (here j same)) mine
      | no ne ↦ subst (Fits s') (sym (there j ne)) (theirs j ne)
    ];
    alone = λ j k busy busy'. elim (ℕ_discrete j i) [
      | yes same ↦ elim (ℕ_discrete k i) [
        | yes same' ↦ same ∙ sym same'
        | no ne ↦ absurd (
            let rest = free k ne (ap is_idle (sym (here j same)) ∙ busy) in
            let also = ap is_idle (sym (there k ne)) ∙ busy' in ground arith)
      ]
      | no ne ↦ elim (ℕ_discrete k i) [
        | yes same' ↦ absurd (
            let rest = free j ne (ap is_idle (sym (here k same')) ∙ busy') in
            let also = ap is_idle (sym (there j ne)) ∙ busy in ground arith)
        | no ne' ↦
            safe.alone j k (ap is_idle (sym (there j ne)) ∙ busy)
              (ap is_idle (sym (there k ne')) ∙ busy')
      ]
    ];
    once = once;
  }
    where
      here : (j : ℕ) → j ≡ i → s'.readers j ≡ r
      here j same = e j ∙ ap (λ k. goes s.readers i r k) same ∙ goes_same s.readers i r

      there : (j : ℕ) → j ≢ i → s'.readers j ≡ s.readers j
      there j ne = e j ∙ goes_other s.readers i r j ne

  -- A step of a thread that is not idle.
  pub busy_moves :
      (s' : Publication) (i : ℕ) (r : Reader)
      → is_idle (s.readers i) ≡ false
      → ((j : ℕ) → s'.readers j ≡ goes s.readers i r j)
      → Fits s' r
      → ((p : ℕ) → held s' p ≤ 1)
      → IsSafe s'
  busy_moves s' i r busy e mine once =
      moves s' i r e mine (λ j ne. Fits-idle s' (s.readers j) (others_idle i j busy ne))
        (λ j ne _. others_idle i j busy ne) once

  -- A step of the control plane.
  pub controls :
      (s' : Publication)
      → ((j : ℕ) → s'.readers j ≡ s.readers j)
      → s'.pin_active ≡ s.pin_active
      → s'.hazard ≡ s.hazard
      → ((p : ℕ) → s.hazard ≡ some p → held s p ≡ 1 → held s' p ≡ 1)
      → ((p : ℕ) → held s' p ≤ 1)
      → IsSafe s'
  controls s' e a h g once = record {
    fits = λ j. subst (Fits s') (sym (e j)) (Fits-same s s' (s.readers j) a h g (safe.fits j));
    alone = λ j k busy busy'.
        safe.alone j k (ap is_idle (sym (e j)) ∙ busy) (ap is_idle (sym (e k)) ∙ busy');
    once = once;
  }

  -- Where the thread that takes a step stands.
  pub at : (i : ℕ) (r : Reader) → s.readers i ≡ r → Fits s r
  at i r e = subst (Fits s) e (safe.fits i)
