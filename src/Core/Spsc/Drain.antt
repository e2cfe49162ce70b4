-- ===== src/Core/Spsc/Drain.antt =====
-- A consumer that pops until the ring is empty, as the clients of crates/riaps-core/src/spsc.rs do.
use blockcat.Prelude.{
  ℕ, zero, suc, ◌+◌, ◌<◌, ◌≡◌, arith, Option, none, some, List, [], ◌∷◌, length, ◌>>=◌,
}
use blockcat.Core.Spsc.{SpscRing, pop}
use blockcat.Core.Spsc.Calls.{IsSound}
use blockcat.Core.Spsc.Models.{IsCapacity, Models, pop_empty, pop-some, after_pop}
use blockcat.Core.Spsc.Steps.{pop-Models}

module _ {ℓ} {A : Type ℓ} {n : ℕ} where
  -- `while let Some(v) = consumer.pop()` on fuel: the values popped, oldest first, and the ring.
  unfoldable pub pop_each : ℕ → SpscRing A n → Option (List A × SpscRing A n)
  pop_each zero r = none
  pop_each (suc fuel) r = do
    (popped, r') ← pop r
    elim popped [
      | none ↦ some ([], r')
      | some v ↦ (do (vs, r'') ← pop_each fuel r'; some (v ∷ vs, r''))
    ]

  -- More fuel than items is enough.
  pub pop_each-Models :
      (fuel : ℕ) (r : SpscRing A n) (q : List A) (k : ℕ)
      → IsCapacity n
      → Models r q
      → IsSound n (r.head + length q) k
      → length q < fuel
      → (r' : SpscRing A n) × (pop_each fuel r ≡ some (q, r'))
        × Models r' []
        × IsSound n (r'.head + 0) k
  unfolding pop_each
  pop_each-Models zero r q k c m s lt = absurd (omega arith)
  pop_each-Models (suc fuel) r [] k c m s lt = (r, rw (pop_empty r c m), m, s)
  pop_each-Models (suc fuel) r (x ∷ q) k c m s lt =
      let (m', s') = pop-Models r x q k c m s in
      let (r', e, m'', s'') = pop_each-Models fuel (after_pop r) q k c m' s' (omega arith) in
      (r', rw (pop-some r x q c m, e), m'', s'')
