-- ===== src/Core/Spsc/Tests.antt =====
-- Runs of the ring, and its theorems at concrete rings.

use native.Mathlib.Nat.{dvd_of_mod-eq-zero}
use blockcat.Prelude.{ℕ, ◌^◌, ◌-◌, ◌≡◌, refl, arith, none, some, List, [], ◌∷◌, inl, ok, err}
use blockcat.Core.Queue
use blockcat.Core.Queue.{Op, Reply, pushed, popped, copied, count}
use blockcat.Core.Spsc.{SpscRing, insufficient_data, new, push, pop, drop_ring}
use blockcat.Core.Spsc.Calls.{run}
use blockcat.Core.Spsc.Models.{Models}
use blockcat.Core.Spsc.Refine.{ring_lifetime}
use blockcat.Core.Spsc.Wrap.{wrap_overwrites}

abbrev script : List (Op ℕ)
script =
    Op.push 1
    ∷ Op.push 2
    ∷ Op.push 3
    ∷ Op.pop
    ∷ Op.push 4
    ∷ Op.len
    ∷ Op.pop_slice_copy 3
    ∷ Op.pop_slice_copy 1
    ∷ Op.capacity_left
    ∷ []

abbrev empty_ring : SpscRing ℕ 2
empty_ring = record { head = 0; tail = 0; buf = none ∷ none ∷ [] }

queue_replies : Queue.run 2 [] script ≡ (
  pushed (ok tt)
      ∷ pushed (ok tt)
      ∷ pushed (err 3)
      ∷ popped (some 1)
      ∷ pushed (ok tt)
      ∷ count 2
      ∷ copied (err insufficient_data)
      ∷ copied (ok (2 ∷ []))
      ∷ count 1
      ∷ [],
  4 ∷ [],
)
unfolding Queue.run Queue.step
queue_replies = refl

ring_lifetime_example :
    (r' : SpscRing ℕ 2) × (run empty_ring script ≡ some ((Queue.run 2 [] script).0, r'))
    × (drop_ring r' ≡ some (Queue.run 2 [] script).1)
unfolding new
ring_lifetime_example =
    ring_lifetime empty_ring script (omega arith) refl (inl (dvd_of_mod-eq-zero 2 refl))

-- One item, 7, at the last index of the word.
abbrev last_index : SpscRing ℕ 3
last_index = record { head = 2 ^ 64 - 1; tail = 0; buf = some 7 ∷ none ∷ none ∷ [] }

last_index-Models : Models last_index (7 ∷ [])
last_index-Models = record {
  size = refl;
  word = omega arith;
  room = omega arith;
  end = refl;
  held = (refl, tt);
}

wrap_overwrites_example :
    (r' : SpscRing ℕ 3) × (push last_index 9 ≡ (ok tt, r'))
    × (s : SpscRing ℕ 3) × (pop r' ≡ some (some 9, s))
wrap_overwrites_example =
    wrap_overwrites last_index 7 [] 9 (omega arith) last_index-Models (omega arith) (omega arith)
