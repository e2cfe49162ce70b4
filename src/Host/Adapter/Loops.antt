-- ===== src/Host/Adapter/Loops.antt =====
-- The loops of crates/riaps-host/src/adapter_buf.rs that pop samples from a FIFO.
use blockcat.Prelude.{
  ℕ, zero, suc, ◌+◌, ◌-◌, ◌≤◌, ◌<◌, ◌≡◌, refl, arith, some, List, [], ◌∷◌, length, take, drop,
  replicate,
}
use blockcat.Host.Fifo.{SampleFifo}
use blockcat.Host.Fifo.Queue.{Models, pop_empty, pop-some}
use blockcat.Host.Blocks.{filled}
use blockcat.Host.Adapter.{pop_block, pop_all, fill_outputs}

module _ {ℓ} {A : Type ℓ} (c : ℕ) where
  pub pop_block-Models :
      (k : ℕ) (f : SampleFifo A) (q : List A)
      → Models c f q
      → k ≤ length q
      → (f' : SampleFifo A) × (pop_block f k ≡ some (take k q, f')) × Models c f' (drop k q)
  unfolding pop_block
  pop_block-Models zero f q m le = (f, refl, m)
  pop_block-Models (suc k) f [] m le = absurd (omega arith)
  pop_block-Models (suc k) f (x ∷ q) m le =
      let (f', e, m') = pop-some c f x q m in
      let (f'', e', m'') = pop_block-Models k f' q m' (omega arith) in (f'', rw (e, e'), m'')

  pub pop_all-Models :
      (fuel : ℕ) (f : SampleFifo A) (q : List A)
      → Models c f q
      → length q < fuel
      → (f' : SampleFifo A) × (pop_all fuel f ≡ some (q, f')) × Models c f' []
  unfolding pop_all
  pop_all-Models zero f q m lt = absurd (omega arith)
  pop_all-Models (suc fuel) f [] m lt = (f, rw (pop_empty c f m), m)
  pop_all-Models (suc fuel) f (x ∷ q) m lt =
      let (f', e, m') = pop-some c f x q m in
      let (f'', e', m'') = pop_all-Models fuel f' q m' (omega arith) in (f'', rw (e, e'), m'')

  fill_outputs_empty :
      (silence : A) (k : ℕ) (f : SampleFifo A)
      → Models c f []
      → fill_outputs silence f k ≡ some (replicate k silence, k, f)
  unfolding fill_outputs
  fill_outputs_empty silence zero f m = refl
  fill_outputs_empty silence (suc k) f m =
      let next : k + 1 ≡ suc k = omega arith in
      rw (pop_empty c f m, fill_outputs_empty silence k f m, next)

  pub fill_outputs-Models :
      (silence : A) (k : ℕ) (f : SampleFifo A) (q : List A)
      → Models c f q
      → (f' : SampleFifo A) × (fill_outputs silence f k
          ≡ some (filled silence k q, k - length q, f'))
        × Models c f' (drop k q)
  unfolding fill_outputs
  fill_outputs-Models silence zero f q m =
      (f, (let none_left : 0 - length q ≡ 0 = omega arith in rw none_left), m)
  fill_outputs-Models silence (suc k) f [] m =
      let all : suc k - 0 ≡ suc k = omega arith in
      (f, rw all (fill_outputs_empty silence (suc k) f m), m)
  fill_outputs-Models silence (suc k) f (x ∷ q) m =
      let (f', e, m') = pop-some c f x q m in
      let (f'', e', m'') = fill_outputs-Models silence k f' q m' in
      let fewer : suc k - suc (length q) ≡ k - length q = omega arith in
      (f'', rw (fewer, e, e'), m'')
