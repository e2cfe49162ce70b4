-- ===== src/Host/Fifo/Session.antt =====
-- The sample FIFO of crates/riaps-host/src/adapter_buf.rs in use, from its constructor on.
use native.Mathlib.Nat.{mod-lt}
use mathlib.Core.Option.{some-injective}
use blockcat.Prelude.{
  ℕ, zero, suc, ◌+◌, ◌-◌, ◌≤◌, ◌<◌, ◌≡◌, ◌∙◌, refl, sym, ap, subst, arith, min, Option, none, some,
  List, [], ◌∷◌, ◌++◌, length, length-replicate, take, replicate, ◌>>=◌,
}
use blockcat.Host.Fifo.{SampleFifo, new, push_slice, push_zeros, pop}
use blockcat.Host.Fifo.Queue.{
  Models, fitting, new-Models, push_slice-Pushed, push_zeros-Pushed, write_zeros-eq-write_all,
  pop_empty, pop-some,
}

pub data Op {ℓ} (A : Type ℓ) : Type ℓ where
  pushes : List A → Op A
  fills : (count : ℕ) → Op A
  pops : Op A

pub data Reply {ℓ} (A : Type ℓ) : Type ℓ where
  accepted : ℕ → Reply A
  popped : Option A → Reply A

module _ {ℓ} {A : Type ℓ} (silence : A) where
  unfoldable pub step : SampleFifo A → Op A → Option (Reply A × SampleFifo A)
  step f (pushes samples) = do (n, f') ← push_slice f samples; some (accepted n, f')
  step f (fills count) = do (n, f') ← push_zeros silence f count; some (accepted n, f')
  step f pops = do (sample, f') ← pop f; some (popped sample, f')

  unfoldable pub run : SampleFifo A → List (Op A) → Option (List (Reply A) × SampleFifo A)
  run f [] = some ([], f)
  run f (op ∷ ops) = do
    (reply, f') ← step f op
    (replies, f'') ← run f' ops
    some (reply ∷ replies, f'')

  -- The same on a queue of at most `c` samples, which takes what fits.
  unfoldable pub queue_step : ℕ → List A → Op A → Reply A × List A
  queue_step c q (pushes samples) =
      (accepted (fitting c q (length samples)), q ++ take (fitting c q (length samples)) samples)
  queue_step c q (fills count) =
      (accepted (fitting c q count), q ++ replicate (fitting c q count) silence)
  queue_step c [] pops = (popped none, [])
  queue_step c (x ∷ q) pops = (popped (some x), q)

  unfoldable pub queue_run : ℕ → List A → List (Op A) → List (Reply A) × List A
  queue_run c q [] = ([], q)
  queue_run c q (op ∷ ops) =
      let (reply, q') = queue_step c q op in
      let (replies, q'') = queue_run c q' ops in (reply ∷ replies, q'')

  step-Models :
      (c : ℕ) (f : SampleFifo A) (q : List A) (op : Op A)
      → Models c f q
      → (f' : SampleFifo A) × (step f op ≡ some ((queue_step c q op).0, f'))
        × Models c f' (queue_step c q op).1
  unfolding step queue_step
  step-Models c f q (pushes samples) m =
      let (f', e, m') = push_slice-Pushed c f q samples m in (f', rw e refl, m')
  step-Models c f q (fills count) m =
      let (f', e, m') = push_zeros-Pushed c silence f q count m in (f', rw e refl, m')
  step-Models c f [] pops m = (f, rw (pop_empty c f m) refl, m)
  step-Models c f (x ∷ q) pops m = let (f', e, m') = pop-some c f x q m in (f', rw e refl, m')

  run-Models :
      (c : ℕ) (f : SampleFifo A) (q : List A) (ops : List (Op A))
      → Models c f q
      → (f' : SampleFifo A) × (run f ops ≡ some ((queue_run c q ops).0, f'))
        × Models c f' (queue_run c q ops).1
  unfolding run queue_run
  run-Models c f q [] m = (f, refl, m)
  run-Models c f q (op ∷ ops) m =
      let (f', e, m') = step-Models c f q op m in
      let (f'', e', m'') = run-Models c f' (queue_step c q op).1 ops m' in
      (f'', rw (e, e') refl, m'')

  -- Any calls of `push_slice`, `push_zeros` and `pop` on a new FIFO of `c` samples, `c` above 0, do not
  -- panic and answer as a queue that takes what fits into `c` samples; afterwards `len` is the length
  -- of that queue, at most `c`, and both indices are below `c`.
  pub fifo_lifetime :
      (c : ℕ) (f : SampleFifo A) (ops : List (Op A))
      → 0 < c
      → new silence c ≡ some f
      → (f' : SampleFifo A) × (run f ops ≡ some ((queue_run c [] ops).0, f'))
        × (f'.len ≡ length (queue_run c [] ops).1)
        × (f'.len ≤ c)
        × (f'.read < c)
        × (f'.write < c)
  fifo_lifetime c f ops pos e =
      let (f₀, e₀, m₀) = new-Models c silence pos in
      let same : f₀ ≡ f = some-injective f₀ f (sym e₀ ∙ e) in
      let (f', e', m) = run-Models c f [] ops (subst (λ g. Models c g []) same m₀) in
      (
        f',
        e',
        m.count,
        omega (arith, m.count, m.room),
        m.laid.read_in,
        omega (
          arith,
          m.laid.write_at,
          m.laid.read_in,
          mod-lt (f'.read + length (queue_run c [] ops).1) {m = c},
        ),
      )

  take-replicate : (m k : ℕ) → k ≤ m → take k (replicate m silence) ≡ replicate k silence
  take-replicate m zero le = refl
  take-replicate zero (suc k) le = absurd (omega arith)
  take-replicate (suc m) (suc k) le = ap (λ t. silence ∷ t) (take-replicate m k (omega arith))

  -- In every state of a FIFO, `push_zeros` does what `push_slice` does with as many samples of silence:
  -- the two take the same number of them, write the same slots, and panic together.
  pub push_zeros-push_slice :
      (f : SampleFifo A) (count : ℕ)
      → push_zeros silence f count ≡ push_slice f (replicate count silence)
  unfolding push_zeros push_slice
  push_zeros-push_slice f count =
      let k = min count (length f.storage - f.len) in
      let same : min (length (replicate count silence)) (length f.storage - f.len) ≡ k =
        ap (λ n. min n (length f.storage - f.len)) (length-replicate count silence) in
      rw (same, take-replicate count k (omega arith), write_zeros-eq-write_all silence k f) refl
