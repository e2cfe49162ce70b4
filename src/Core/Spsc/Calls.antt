-- ===== src/Core/Spsc/Calls.antt =====
-- A client of the ring of crates/riaps-core/src/spsc.rs: one call, and a sequence of calls.
use Prim.Native.Nat.{◌∣◌}
use blockcat.Prelude.{ℕ, suc, ◌+◌, ◌≤◌, Option, none, some, List, [], ◌∷◌, usize_mod, ◌⊎◌}
use blockcat.Core.Queue.{Op, Reply, pushed, popped, copied, count}
use blockcat.Core.Spsc.{SpscRing, push, pop, pop_slice_copy, len, capacity_left}

module _ {ℓ} {A : Type ℓ} {n : ℕ} where
  -- One call of a client; `none` is undefined behaviour.
  unfoldable pub step : SpscRing A n → Op A → Option (Reply A × SpscRing A n)
  step r (Op.push v) = let (result, r') = push r v in some (pushed result, r')
  step r Op.pop = elim (pop r) [ none ↦ none | some (v, r') ↦ some (popped v, r') ]
  step r (Op.pop_slice_copy m) = elim (pop_slice_copy r m) [
    | none ↦ none
    | some (vs, r') ↦ some (copied vs, r')
  ]
  step r Op.len = some (count (len r), r)
  step r Op.capacity_left = some (count (capacity_left r), r)

  unfoldable pub run : SpscRing A n → List (Op A) → Option (List (Reply A) × SpscRing A n)
  run r [] = some ([], r)
  run r (op ∷ ops) = elim (step r op) [
    | none ↦ none
    | some (reply, r') ↦ elim (run r' ops) [ none ↦ none | some (rs, s) ↦ some (reply ∷ rs, s) ]
  ]

abbrev pub pushes {ℓ} : {A : Type ℓ} → List (Op A) → ℕ
pushes [] = 0
pushes (Op.push v ∷ ops) = suc (pushes ops)
pushes (op ∷ ops) = pushes ops

-- Either the capacity divides 2^64, or the indices do not reach 2^64 in the next `k` pushes.
abbrev pub IsSound : ℕ → ℕ → ℕ → Type 0
IsSound n tail k = (n ∣ usize_mod) ⊎ (tail + k ≤ usize_mod)
