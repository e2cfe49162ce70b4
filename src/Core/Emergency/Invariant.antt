-- ===== src/Core/Emergency/Invariant.antt =====
-- The states that `EmergencySlot` of crates/riaps-core/src/memory.rs comes to.
use mathlib.Core.Option.{some-injective}
use blockcat.Prelude.{
  ℕ, ◌≡◌, ◌∙◌, refl, sym, ap, subst, arith, Bool, true, false, Option, none, some, List, [], ◌∷◌,
  ◌++◌, append-nil,
}
use blockcat.Core.Emergency.{
  Writer, resting, chosen, written, flagged, Reader, waiting, seen, confirmed, copied, cleared,
  EmergencySlot, new, Step, refuse, choose, write, flag, publish, nothing, see, too_early, confirm,
  copy, clear, release, Reachable, start, next,
}

module _ {ℓ} {V : Type ℓ} where
  -- What the writer has done so far.
  pub Prepared : Option V → Bool → Writer V → Type ℓ
  Prepared table ready resting = Unit {ℓ}
  Prepared table ready (chosen obj v) = Unit {ℓ}
  Prepared table ready (written obj v) = table ≡ some v
  Prepared table ready (flagged obj v) = (table ≡ some v) × (ready ≡ true)

  -- How far the reader is with the object `p` and its table `v`.
  pub Owes : ℕ → V → Bool → Reader V → Type ℓ
  Owes p v ready waiting = (ready ≡ true) × Unit {ℓ}
  Owes p v ready (seen q) = (ready ≡ true) × (q ≡ p) × Unit {ℓ}
  Owes p v ready (confirmed q) = (ready ≡ true) × (q ≡ p) × Unit {ℓ}
  Owes p v ready (copied q w) = (ready ≡ true) × (q ≡ p) × (w ≡ v)
  Owes p v ready (cleared q w) = (ready ≡ false) × (q ≡ p) × (w ≡ v)

  -- Either the slot is vacant, and the writer alone is at work, or it holds an object, and only the
  -- reader is. The last index is what the slot holds.
  pub data Fits : Option ℕ → Option V → Bool → Writer V → Reader V → List (ℕ × V) → Type ℓ where
    vacant :
        (table : Option V) (ready : Bool) (w : Writer V)
        → Prepared table ready w
        → Fits none table ready w waiting []
    occupied :
        (p : ℕ) (v : V) (ready : Bool) (r : Reader V)
        → Owes p v ready r
        → Fits (some p) (some v) ready resting r ((p, v) ∷ [])

  choose-Fits :
      {ptr : Option ℕ} {table : Option V} {ready : Bool} {w : Writer V} {r : Reader V}
      {inside : List (ℕ × V)} (obj : ℕ) (v : V)
      → Fits ptr table ready w r inside
      → ptr ≡ none
      → Fits ptr table ready (chosen obj v) r inside
  unfolding Prepared
  choose-Fits obj v (vacant table ready w h) e = vacant table ready (chosen obj v) tt
  choose-Fits obj v (occupied p u ready r h) e = absurd (ground (arith, e))

  write-Fits :
      {ptr : Option ℕ} {table : Option V} {ready : Bool} {w : Writer V} {r : Reader V}
      {inside : List (ℕ × V)} (obj : ℕ) (v : V)
      → Fits ptr table ready w r inside
      → w ≡ chosen obj v
      → Fits ptr (some v) ready (written obj v) r inside
  unfolding Prepared
  write-Fits obj v (vacant table ready w h) e = vacant (some v) ready (written obj v) refl
  write-Fits obj v (occupied p u ready r h) e = absurd (ground (arith, e))

  flag-Fits :
      {ptr : Option ℕ} {table : Option V} {ready : Bool} {w : Writer V} {r : Reader V}
      {inside : List (ℕ × V)} (obj : ℕ) (v : V)
      → Fits ptr table ready w r inside
      → w ≡ written obj v
      → Fits ptr table true (flagged obj v) r inside
  unfolding Prepared
  flag-Fits obj v (vacant table ready w h) e =
      vacant table true (flagged obj v) (subst (Prepared table ready) e h, refl)
  flag-Fits obj v (occupied p u ready r h) e = absurd (ground (arith, e))

  publish-Fits :
      {ptr : Option ℕ} {table : Option V} {ready : Bool} {w : Writer V} {r : Reader V}
      {inside : List (ℕ × V)} (obj : ℕ) (v : V)
      → Fits ptr table ready w r inside
      → w ≡ flagged obj v
      → (inside ≡ []) × Fits (some obj) table ready resting r ((obj, v) ∷ [])
  unfolding Prepared Owes
  publish-Fits obj v (vacant table ready w h) e =
      let (written_table, set_flag) = subst (Prepared table ready) e h in
      (
        refl,
        subst (λ t. Fits (some obj) t ready resting waiting ((obj, v) ∷ [])) (sym written_table)
            (occupied obj v ready waiting (set_flag, tt)),
      )
  publish-Fits obj v (occupied p u ready r h) e = absurd (ground (arith, e))

  see-Fits :
      {ptr : Option ℕ} {table : Option V} {ready : Bool} {w : Writer V} {r : Reader V}
      {inside : List (ℕ × V)} (q : ℕ)
      → Fits ptr table ready w r inside
      → r ≡ waiting
      → ptr ≡ some q
      → Fits ptr table ready w (seen q) inside
  unfolding Owes
  see-Fits q (vacant table ready w h) e e' = absurd (ground (arith, e'))
  see-Fits q (occupied p v ready r h) e e' =
      occupied p v ready (seen q) ((subst (Owes p v ready) e h).0, ground (arith, e'), tt)

  -- Where the reader has seen a pointer, the flag is set already.
  pub seen-ready :
      {ptr : Option ℕ} {table : Option V} {ready : Bool} {w : Writer V} {r : Reader V}
      {inside : List (ℕ × V)} (q : ℕ)
      → Fits ptr table ready w r inside
      → r ≡ seen q
      → ready ≡ true
  unfolding Owes
  seen-ready q (vacant table ready w h) e = absurd (ground (arith, e))
  seen-ready q (occupied p v ready r h) e = (subst (Owes p v ready) e h).0

  confirm-Fits :
      {ptr : Option ℕ} {table : Option V} {ready : Bool} {w : Writer V} {r : Reader V}
      {inside : List (ℕ × V)} (q : ℕ)
      → Fits ptr table ready w r inside
      → r ≡ seen q
      → Fits ptr table ready w (confirmed q) inside
  unfolding Owes
  confirm-Fits q (vacant table ready w h) e = absurd (ground (arith, e))
  confirm-Fits q (occupied p v ready r h) e =
      occupied p v ready (confirmed q) (subst (Owes p v ready) e h)

  copy-Fits :
      {ptr : Option ℕ} {table : Option V} {ready : Bool} {w : Writer V} {r : Reader V}
      {inside : List (ℕ × V)} (q : ℕ) (u : V)
      → Fits ptr table ready w r inside
      → r ≡ confirmed q
      → table ≡ some u
      → Fits ptr table ready w (copied q u) inside
  unfolding Owes
  copy-Fits q u (vacant table ready w h) e e' = absurd (ground (arith, e))
  copy-Fits q u (occupied p v ready r h) e e' =
      let (flag_set, same, _) = subst (Owes p v ready) e h in
      occupied p v ready (copied q u) (flag_set, same, sym (some-injective v u e'))

  clear-Fits :
      {ptr : Option ℕ} {table : Option V} {ready : Bool} {w : Writer V} {r : Reader V}
      {inside : List (ℕ × V)} (q : ℕ) (u : V)
      → Fits ptr table ready w r inside
      → r ≡ copied q u
      → Fits ptr table false w (cleared q u) inside
  unfolding Owes
  clear-Fits q u (vacant table ready w h) e = absurd (ground (arith, e))
  clear-Fits q u (occupied p v ready r h) e =
      let (flag_set, same, same') = subst (Owes p v ready) e h in
      occupied p v false (cleared q u) (refl, same, same')

  release-Fits :
      {ptr : Option ℕ} {table : Option V} {ready : Bool} {w : Writer V} {r : Reader V}
      {inside : List (ℕ × V)} (q : ℕ) (u : V)
      → Fits ptr table ready w r inside
      → r ≡ cleared q u
      → (inside ≡ ((q, u) ∷ [])) × Fits none table ready w waiting []
  unfolding Owes Prepared
  release-Fits q u (vacant table ready w h) e = absurd (ground (arith, e))
  release-Fits q u (occupied p v ready r h) e =
      let (flag_set, same, same') = subst (Owes p v ready) e h in
      (
        ap (λ k. (k, v) ∷ []) (sym same) ∙ ap (λ t. (q, t) ∷ []) (sym same'),
        vacant (some v) ready resting tt,
      )

  pub confirmed-table :
      {ptr : Option ℕ} {table : Option V} {ready : Bool} {w : Writer V} {r : Reader V}
      {inside : List (ℕ × V)} (q : ℕ)
      → Fits ptr table ready w r inside
      → r ≡ confirmed q
      → (v : V) × (table ≡ some v) × (inside ≡ ((q, v) ∷ []))
  unfolding Owes
  confirmed-table q (vacant table ready w h) e = absurd (ground (arith, e))
  confirmed-table q (occupied p v ready r h) e =
      let (flag_set, same, _) = subst (Owes p v ready) e h in
      (v, refl, ap (λ k. (k, v) ∷ []) (sym same))

  -- What was pushed is what was drained, and then what the slot holds.
  pub record IsConsistent (s : EmergencySlot V) (inside : List (ℕ × V)) : Type ℓ where
    pub fits : Fits s.ptr s.vtable s.vtable_ready s.writer s.reader inside
    pub pushed : s.pushed ≡ s.drained ++ inside

  Step-IsConsistent :
      (s s' : EmergencySlot V) (inside : List (ℕ × V))
      → IsConsistent s inside
      → Step s s'
      → (inside' : List (ℕ × V)) × IsConsistent s' inside'
  Step-IsConsistent s s' inside c (refuse p e e') = (inside, c)
  Step-IsConsistent s s' inside c (choose obj v e e') =
      (inside, record { fits = choose-Fits obj v c.fits e'; pushed = c.pushed })
  Step-IsConsistent s s' inside c (write obj v e) =
      (inside, record { fits = write-Fits obj v c.fits e; pushed = c.pushed })
  Step-IsConsistent s s' inside c (flag obj v e) =
      (inside, record { fits = flag-Fits obj v c.fits e; pushed = c.pushed })
  Step-IsConsistent s s' inside c (publish obj v e) =
      let (none_inside, fits) = publish-Fits obj v c.fits e in
      (
        (obj, v) ∷ [],
        record {
          fits = fits;
          pushed =
              ap (λ xs. xs ++ ((obj, v) ∷ []))
                (c.pushed ∙ ap (λ xs. s.drained ++ xs) none_inside ∙ append-nil s.drained);
        },
      )
  Step-IsConsistent s s' inside c (nothing e e') = (inside, c)
  Step-IsConsistent s s' inside c (see p e e') =
      (inside, record { fits = see-Fits p c.fits e e'; pushed = c.pushed })
  Step-IsConsistent s s' inside c (too_early p e e') =
      absurd (let set_flag = seen-ready p c.fits e in ground arith)
  Step-IsConsistent s s' inside c (confirm p e e') =
      (inside, record { fits = confirm-Fits p c.fits e; pushed = c.pushed })
  Step-IsConsistent s s' inside c (copy p v e e') =
      (inside, record { fits = copy-Fits p v c.fits e e'; pushed = c.pushed })
  Step-IsConsistent s s' inside c (clear p v e) =
      (inside, record { fits = clear-Fits p v c.fits e; pushed = c.pushed })
  Step-IsConsistent s s' inside c (release p v e) =
      let (only, fits) = release-Fits p v c.fits e in
      (
        [],
        record {
          fits = fits;
          pushed =
              c.pushed
              ∙ ap (λ xs. s.drained ++ xs) only
              ∙ sym (append-nil (s.drained ++ ((p, v) ∷ [])));
        },
      )

  pub Reachable-IsConsistent :
      (s : EmergencySlot V) → Reachable s → (inside : List (ℕ × V)) × IsConsistent s inside
  unfolding new Prepared
  Reachable-IsConsistent s start =
      ([], record { fits = vacant none false resting tt; pushed = refl })
  Reachable-IsConsistent s (next s₀ s₁ r step) =
      let (inside, c) = Reachable-IsConsistent s₀ r in Step-IsConsistent s₀ s₁ inside c step
