-- ===== src/Core/Emergency/Safety.antt =====
-- The protocol of `EmergencySlot` in crates/riaps-core/src/memory.rs: no table is read before it is
-- written, and every object that was pushed comes out once, with its own table.
use blockcat.Prelude.{ℕ, ◌≡◌, ◌≢◌, refl, Bool, true, Option, none, some, List, [], ◌∷◌, ◌++◌}
use blockcat.Core.Emergency.{
  Writer, resting, Reader, waiting, seen, confirmed, EmergencySlot, Step, Reachable,
}
use blockcat.Core.Emergency.Invariant.{
  Fits, vacant, occupied, seen-ready, confirmed-table, Reachable-IsConsistent,
}

module _ {ℓ} {V : Type ℓ} where
  -- The objects that a slot with this pointer holds.
  pub IsHolding : Option ℕ → List (ℕ × V) → Type ℓ
  IsHolding none inside = inside ≡ []
  IsHolding (some p) inside = (v : V) × (inside ≡ ((p, v) ∷ []))

  Fits-IsHolding :
      {ptr : Option ℕ} {table : Option V} {ready : Bool} {w : Writer V} {r : Reader V}
      {inside : List (ℕ × V)}
      → Fits ptr table ready w r inside
      → IsHolding ptr inside
  unfolding IsHolding
  Fits-IsHolding (vacant table ready w h) = refl
  Fits-IsHolding (occupied p v ready r h) = (v, refl)

  reading-resting :
      {ptr : Option ℕ} {table : Option V} {ready : Bool} {w : Writer V} {r : Reader V}
      {inside : List (ℕ × V)}
      → Fits ptr table ready w r inside
      → r ≢ waiting
      → w ≡ resting
  reading-resting (vacant table ready w h) busy = absurd (busy refl)
  reading-resting (occupied p v ready r h) busy = refl

  -- In every state that a new slot comes to, with one writer and one reader and their steps in any
  -- order: the objects pushed so far, each with its table, are those drained so far, in order, and
  -- then what the slot holds, at most one; a reader that has seen a pointer finds the flag set; a
  -- reader that is about to read the table finds it written, and it is the table of the object that
  -- it has seen; and the writer does not touch the slot while the reader is in the middle of `drain`.
  pub slot_is_safe :
      (s : EmergencySlot V)
      → Reachable s
      → (inside : List (ℕ × V)) × (s.pushed ≡ s.drained ++ inside)
        × IsHolding s.ptr inside
        × ((q : ℕ) → s.reader ≡ seen q → s.vtable_ready ≡ true)
        × ((q : ℕ)
            → s.reader ≡ confirmed q
            → (v : V) × (s.vtable ≡ some v) × (inside ≡ ((q, v) ∷ [])))
        × (s.reader ≢ waiting → s.writer ≡ resting)
  slot_is_safe s r =
      let (inside, c) = Reachable-IsConsistent s r in
      (
        inside,
        c.pushed,
        Fits-IsHolding c.fits,
        λ q e. seen-ready q c.fits e,
        λ q e. confirmed-table q c.fits e,
        λ busy. reading-resting c.fits busy,
      )

  -- Steps one after another.
  pub data Run (s : EmergencySlot V) : EmergencySlot V → Type ℓ where
    stay : Run s s
    go : (t u : EmergencySlot V) → Run s t → Step t u → Run s u
