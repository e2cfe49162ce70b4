-- ===== src/Core/Gc/Tests.antt =====
-- Three boxes are dropped, one of a value of size 0. The destructors write a log of addresses.
use blockcat.Prelude.{ℕ, ◌≡◌, refl, arith, none, some, List, [], ◌∷◌, map, ◌==◌, if◌then◌else◌}
use blockcat.Core.Gc.{Sort, Box, Heap, new, defer_box, owns, drop_value, of, drop_and_dealloc}
use blockcat.Core.Gc.Reclaim.{drop_all, occupies, AreLive, destroyed, deferred_drop}

abbrev word : Sort (List ℕ)
word = record { destroy = λ p log. p ∷ log; layout = record { size = 8; align = 8 } }

abbrev marker : Sort (List ℕ)
marker = record { destroy = λ p log. 0 ∷ log; layout = record { size = 0; align = 1 } }

abbrev boxes : List (Box (List ℕ))
boxes =
    record { sort = word; address = 64 }
    ∷ record { sort = marker; address = 1 }
    ∷ record { sort = word; address = 80 }
    ∷ []

-- The block at 96 belongs to no box.
abbrev heap : Heap (List ℕ)
heap = record {
  blocks = λ a.
      if (a == 64)
      then some (record { size = 8; align = 8 })
      else if (a == 80)
      then some (record { size = 8; align = 8 })
      else if (a == 96)
      then some (record { size = 4; align = 4 })
      else none;
  state = [];
}

boxes-AreLive : AreLive heap.blocks boxes
unfolding AreLive occupies
boxes-AreLive = (
  record { not_null = λ e. absurd (omega (arith, e)); aligned = refl; allocated = λ h. refl },
  (λ h. refl),
  (
    record {
      not_null = λ e. absurd (omega (arith, e));
      aligned = refl;
      allocated = λ h. absurd (h refl);
    },
    (λ h. refl),
    (
      record { not_null = λ e. absurd (omega (arith, e)); aligned = refl; allocated = λ h. refl },
      (λ h. refl),
      tt,
    ),
  ),
)

deferred_drop_example :
    (heap' : Heap (List ℕ)) × (drop_all new (map defer_box boxes) heap
      ≡ some (record { reclaimed = 3 }, heap'))
    × (heap'.state ≡ destroyed boxes [])
    × ((a : ℕ) → heap'.blocks a ≡ (if occupies boxes a then none else heap.blocks a))
unfolding new
deferred_drop_example = deferred_drop boxes new heap boxes-AreLive (omega arith)

destroyed-boxes : destroyed boxes [] ≡ 80 ∷ 0 ∷ 64 ∷ []
unfolding destroyed
destroyed-boxes = refl

-- A block that is freed again is undefined behaviour.
drop_all-twice :
    drop_all new
      (map defer_box
        (record { sort = word; address = 64 } ∷ record { sort = word; address = 64 } ∷ []))
      heap
    ≡ none
unfolding drop_all new defer_box of drop_and_dealloc drop_value owns
drop_all-twice = refl
