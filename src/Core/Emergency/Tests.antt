-- ===== src/Core/Emergency/Tests.antt =====
-- One object goes through an emergency slot, and the theorems on the slot at two of its states. A
-- number stands for a table.
use blockcat.Prelude.{ℕ, ◌≡◌, ◌≢◌, refl, true, some, List, [], ◌∷◌, ◌++◌}
use blockcat.Core.Emergency.{
  resting, chosen, written, flagged, waiting, seen, confirmed, EmergencySlot, new, choose, write,
  flag, publish, see, confirm, Reachable, start, next,
}
use blockcat.Core.Emergency.Safety.{IsHolding, slot_is_safe}

-- An object at 64 with the table 7 is published.
abbrev published : EmergencySlot ℕ
published = record {
  ptr = some 64;
  vtable = some 7;
  vtable_ready = true;
  writer = resting;
  reader = waiting;
  pushed = (64, 7) ∷ [];
  drained = [];
}

published-Reachable : Reachable published
unfolding new
published-Reachable =
    let s₁ : EmergencySlot ℕ = record new { writer = chosen 64 7 } in
    let s₂ : EmergencySlot ℕ = record s₁ { vtable = some 7; writer = written 64 7 } in
    let s₃ : EmergencySlot ℕ = record s₂ { vtable_ready = true; writer = flagged 64 7 } in
    let r₁ : Reachable s₁ = next new s₁ start (choose 64 7 refl refl) in
    let r₂ : Reachable s₂ = next s₁ s₂ r₁ (write 64 7 refl) in
    let r₃ : Reachable s₃ = next s₂ s₃ r₂ (flag 64 7 refl) in
    next s₃ published r₃ (publish 64 7 refl)

abbrev reading : EmergencySlot ℕ
reading = record published { reader = confirmed 64 }

reading-Reachable : Reachable reading
reading-Reachable =
    let s₁ : EmergencySlot ℕ = record published { reader = seen 64 } in
    next s₁ reading (next published s₁ published-Reachable (see 64 refl refl))
      (confirm 64 refl refl)

slot_is_safe_example :
    (inside : List (ℕ × ℕ)) × (((64, 7) ∷ []) ≡ [] ++ inside)
    × IsHolding (some 64) inside
    × ((q : ℕ) → reading.reader ≡ seen q → true ≡ true)
    × ((q : ℕ)
        → reading.reader ≡ confirmed q
        → (v : ℕ) × (some 7 ≡ some v) × (inside ≡ ((q, v) ∷ [])))
    × (reading.reader ≢ waiting → reading.writer ≡ resting)
slot_is_safe_example = slot_is_safe reading reading-Reachable
