-- ===== src/Core/Spsc/Refine.antt =====
-- The ring of crates/riaps-core/src/spsc.rs against the bounded queue of `Core.Queue`, over whole
-- sequences of calls.

use blockcat.Prelude.{
  ℕ, subst, ◌+◌, ◌≡◌, sym, refl, arith, none, some, List, [], ◌∷◌, length, replicate,
  length-replicate,
}
use blockcat.Core.Queue
use blockcat.Core.Spsc.Calls.{run, pushes, IsSound}
use blockcat.Core.Spsc.Steps.{step-Refines}
use blockcat.Core.Queue.{Op, Reply, pushed, popped, copied, count}
use blockcat.Core.Spsc.{SpscRing, new, drop_ring}
use blockcat.Core.Spsc.Models.{IsCapacity, Models}
use blockcat.Core.Spsc.Batch.{drop_ring-Models}

module _ {ℓ} {A : Type ℓ} {n : ℕ} where
  abbrev pub fresh : SpscRing A n
  fresh = record { head = 0; tail = 0; buf = replicate n none }

  pub fresh-Models : IsCapacity n → Models fresh []
  fresh-Models c = record {
    size = length-replicate n none;
    word = omega arith;
    room = omega arith;
    end = omega arith;
    held = tt;
  }

  pub new-fresh : IsCapacity n → new n ≡ some fresh
  unfolding new
  new-fresh c = ground (arith, c.positive)

  -- A new ring is empty.
  pub new-Models : (r : SpscRing A n) → IsCapacity n → new n ≡ some r → Models r []
  unfolding new
  new-Models r c e =
      let e' : fresh ≡ r = ground arith in subst (λ s. Models s []) e' (fresh-Models c)

  pub run_refines :
      (r : SpscRing A n) (q : List A) (ops : List (Op A))
      → IsCapacity n
      → Models r q
      → IsSound n (r.head + length q) (pushes ops)
      → (r' : SpscRing A n) × (run r ops ≡ some ((Queue.run n q ops).0, r'))
        × Models r' (Queue.run n q ops).1
  unfolding run Queue.run
  run_refines r q [] c m s = (r, refl, m)
  run_refines r q (op ∷ ops) c m s =
      let (r', e, m', s') = step-Refines r q op ops c m s in
      let (r'', e', m'') = run_refines r' (Queue.step n q op).1 ops c m' s' in
      (r'', ground (arith, e, e'), m'')

  -- From its construction on, a ring of `n` slots, 0 < n < 2^64, answers every sequence of pushes, pops, batch
  -- pops and size queries as the bounded first-in first-out queue of `n` items does, no call reads
  -- an uninitialised slot, and dropping the ring after it drops the items left in the queue, each
  -- once and in order. This holds if `n` divides 2^64, or if at most 2^64 values are pushed.
  pub ring_lifetime :
      (r : SpscRing A n) (ops : List (Op A))
      → IsCapacity n
      → new n ≡ some r
      → IsSound n 0 (pushes ops)
      → (r' : SpscRing A n) × (run r ops ≡ some ((Queue.run n [] ops).0, r'))
        × (drop_ring r' ≡ some (Queue.run n [] ops).1)
  unfolding new
  ring_lifetime r ops c e s =
      let m : Models r [] = new-Models r c e in
      let start : r.head + 0 ≡ 0 = ground arith in
      let (r', e', m') =
        run_refines r [] ops c m (subst (λ k. IsSound n k (pushes ops)) (sym start) s) in
      (r', e', drop_ring-Models r' (Queue.run n [] ops).1 c m')
