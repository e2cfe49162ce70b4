-- ===== src/Core/Spsc/Atomic/Tests.antt =====
-- A push and a pop that overlap on a ring of one slot, and the theorem on the ring at the state in
-- between.
use native.Mathlib.Nat.{dvd_of_mod-eq-zero}
use blockcat.Prelude.{
  ℕ, ◌+◌, ◌%◌, ◌≤◌, ◌<◌, ◌≡◌, ◌≢◌, refl, arith, none, some, true, false, List, [], ◌∷◌, ◌++◌,
  length, wrapping_sub,
}
use blockcat.Core.Spsc
use blockcat.Core.Spsc.{SpscRing, read_slot}
use blockcat.Core.Spsc.Atomic.{
  calm, quiet, has_tail, has_head, has_written, saw_head, saw_tail, Shared, load_tail, load_head,
  write, store_tail, see_head, see_tail, at_rest, Reachable, start, next,
}
use blockcat.Core.Spsc.Atomic.Invariant.{back, front, in_hand}
use blockcat.Core.Spsc.Atomic.Progress.{pop_delivers, push_accepts}
use blockcat.Core.Spsc.Atomic.Safety.{concurrent_ring}
use blockcat.Core.Spsc.Atomic.Turns.{Run}

abbrev two : SpscRing ℕ 2
two = record { head = 0; tail = 0; buf = none ∷ none ∷ [] }

two-new : Spsc.new {A = ℕ} 2 ≡ some two
unfolding Spsc.new
two-new = refl

-- The value 7 is in the ring and the consumer is about to read it, while the producer, with a head
-- that it has loaded before, is about to write 9.
abbrev both : Shared ℕ 2
both = record {
  ring = record { head = 0; tail = 1; buf = some 7 ∷ none ∷ [] };
  producer = has_head 9 1 0;
  consumer = saw_tail 0 1;
  pushed = 7 ∷ [];
  popped = [];
}

both-Reachable : Reachable (at_rest two) both
both-Reachable =
    let s₀ : Shared ℕ 2 = at_rest two in
    let s₁ : Shared ℕ 2 = record s₀ { producer = has_tail 7 0 } in
    let s₂ : Shared ℕ 2 = record s₀ { producer = has_head 7 0 0; consumer = saw_head 0 } in
    let s₁' : Shared ℕ 2 = record s₀ { producer = has_head 7 0 0 } in
    let s₃ : Shared ℕ 2 = record s₂ {
      ring = record two { buf = some 7 ∷ none ∷ [] };
      producer = has_written 7 0;
    } in
    let s₄ : Shared ℕ 2 = record s₃ { ring = both.ring; producer = calm; pushed = 7 ∷ [] } in
    let s₅ : Shared ℕ 2 = record s₄ { producer = has_tail 9 1 } in
    let s₆ : Shared ℕ 2 = record s₄ { producer = has_head 9 1 0 } in
    let r₁ : Reachable s₀ s₁ = next s₀ s₁ start (load_tail 7 refl) in
    let r₁' : Reachable s₀ s₁' = next s₁ s₁' r₁ (load_head 7 0 refl) in
    let r₂ : Reachable s₀ s₂ = next s₁' s₂ r₁' (see_head refl) in
    let r₃ : Reachable s₀ s₃ = next s₂ s₃ r₂ (write 7 0 0 refl (λ e. omega (arith, e))) in
    let r₄ : Reachable s₀ s₄ = next s₃ s₄ r₃ (store_tail 7 0 refl) in
    let r₅ : Reachable s₀ s₅ = next s₄ s₅ r₄ (load_tail 9 refl) in
    let r₆ : Reachable s₀ s₆ = next s₅ s₆ r₅ (load_head 9 1 refl) in
    next s₆ both r₆ (see_tail 0 refl)

concurrent_ring_example :
    (q : List ℕ) × (both.pushed ≡ both.popped ++ (in_hand both.consumer ++ q))
    × (length (front both.consumer) + length q + length (back both.producer) ≤ 2)
    × ((head tail : ℕ)
        → both.consumer ≡ saw_tail head tail
        → tail ≢ head
        → (x : ℕ) × (rest : List ℕ) × (q ≡ x ∷ rest)
          × (read_slot both.ring.buf (head % 2) ≡ some x))
    × ((v tail head : ℕ)
        → both.producer ≡ has_head v tail head
        → wrapping_sub tail head ≢ 2
        → (length (front both.consumer) + length q < 2)
          × ((head' tail' : ℕ)
              → both.consumer ≡ saw_tail head' tail'
              → tail' ≢ head'
              → tail % 2 ≢ head' % 2))
concurrent_ring_example =
    concurrent_ring (dvd_of_mod-eq-zero 2 refl)
      (record { positive = omega arith; small = omega arith }) two both two-new both-Reachable

-- The value 7 is in the ring, and both threads are at rest.
abbrev holding : Shared ℕ 2
holding = record {
  ring = both.ring;
  producer = calm;
  consumer = quiet;
  pushed = 7 ∷ [];
  popped = [];
}

holding-Reachable : Reachable (at_rest two) holding
holding-Reachable =
    let s₀ : Shared ℕ 2 = at_rest two in
    let s₁ : Shared ℕ 2 = record s₀ { producer = has_tail 7 0 } in
    let s₂ : Shared ℕ 2 = record s₀ { producer = has_head 7 0 0 } in
    let s₃ : Shared ℕ 2 = record s₀ {
      ring = record two { buf = some 7 ∷ none ∷ [] };
      producer = has_written 7 0;
    } in
    let r₁ : Reachable s₀ s₁ = next s₀ s₁ start (load_tail 7 refl) in
    let r₂ : Reachable s₀ s₂ = next s₁ s₂ r₁ (load_head 7 0 refl) in
    let r₃ : Reachable s₀ s₃ = next s₂ s₃ r₂ (write 7 0 0 refl (λ e. omega (arith, e))) in
    next s₃ holding r₃ (store_tail 7 0 refl)

pop_delivers_example :
    (x : ℕ) × (rest : List ℕ) × (s' : Shared ℕ 2) × Run false holding 4 s'
    × (holding.pushed ≡ holding.popped ++ (x ∷ rest))
    × (s'.popped ≡ holding.popped ++ (x ∷ []))
    × (s'.consumer ≡ quiet)
    × (s'.producer ≡ calm)
    × (s'.pushed ≡ 7 ∷ [])
    × ((t : Shared ℕ 2) → Run false holding 4 t → t ≡ s')
pop_delivers_example =
    pop_delivers (dvd_of_mod-eq-zero 2 refl)
      (record { positive = omega arith; small = omega arith }) two holding two-new holding-Reachable
      refl (omega arith)

-- The consumer is about to read it.
abbrev poised : Shared ℕ 2
poised = record holding { consumer = saw_tail 0 1 }

poised-Reachable : Reachable (at_rest two) poised
poised-Reachable =
    let s : Shared ℕ 2 = record holding { consumer = saw_head 0 } in
    next s poised (next holding s holding-Reachable (see_head refl)) (see_tail 0 refl)

push_accepts_example :
    (s' : Shared ℕ 2) × Run true poised 4 s'
    × (s'.pushed ≡ poised.pushed ++ (9 ∷ []))
    × (s'.producer ≡ calm)
    × (s'.consumer ≡ saw_tail 0 1)
    × (s'.popped ≡ [])
    × ((t : Shared ℕ 2) → Run true poised 4 t → (v : ℕ) × (t.pushed ≡ 7 ∷ v ∷ []))
push_accepts_example =
    push_accepts (dvd_of_mod-eq-zero 2 refl)
      (record { positive = omega arith; small = omega arith }) two poised 9 two-new poised-Reachable
      refl (omega arith)
