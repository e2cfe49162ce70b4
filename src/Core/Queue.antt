-- ===== src/Core/Queue.antt =====
-- The contract of the ring in crates/riaps-core/src/spsc.rs: a first-in first-out queue of at most
-- `n` items, oldest first, with the calls that a client can make and what it sees of each.
use blockcat.Prelude.{
  ℕ, ◌-◌, Option, none, some, List, [], ◌∷◌, ◌++◌, Result, ok, err, ◌==◌, ltb, if◌then◌else◌,
  length, take, drop,
}
use blockcat.Core.Spsc.{SpscError, insufficient_data}

pub data Op {ℓ} (A : Type ℓ) : Type ℓ where
  push : A → Op A
  pop : Op A
  pop_slice_copy : (m : ℕ) → Op A
  len : Op A
  capacity_left : Op A

pub data Reply {ℓ} (A : Type ℓ) : Type ℓ where
  pushed : Result (Unit {0}) A → Reply A
  popped : Option A → Reply A
  copied : Result (List A) SpscError → Reply A
  count : ℕ → Reply A

module _ {ℓ} {A : Type ℓ} where
  unfoldable pub step : ℕ → List A → Op A → Reply A × List A
  step n q (push v) = if length q == n then (pushed (err v), q) else (pushed (ok tt), q ++ (v ∷ []))
  step n [] pop = (popped none, [])
  step n (x ∷ q) pop = (popped (some x), q)
  step n q (pop_slice_copy m) =
      if ltb (length q) m
      then (copied (err insufficient_data), q)
      else (copied (ok (take m q)), drop m q)
  step n q len = (count (length q), q)
  step n q capacity_left = (count (n - length q), q)

  -- The replies, and the queue that is left.
  unfoldable pub run : ℕ → List A → List (Op A) → List (Reply A) × List A
  run n q [] = ([], q)
  run n q (op ∷ ops) =
      let (reply, q') = step n q op in let (replies, last) = run n q' ops in (reply ∷ replies, last)
