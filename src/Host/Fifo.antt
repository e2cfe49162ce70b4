-- ===== src/Host/Fifo.antt =====
-- `SampleFifo` of crates/riaps-host/src/adapter_buf.rs, the ring of samples. A sample is only moved,
-- so its type is a parameter; `silence` is 0.0. Allocation succeeds at any capacity.
mod Layout
pub mod Queue
pub mod Session
mod Tests
use blockcat.Prelude.{
  ℕ, zero, suc, ◌+◌, ◌-◌, min, Option, none, some, List, [], ◌∷◌, ◌==◌, ltb, if◌then◌else◌, length,
  get_elem?, set, take, replicate, ◌>>=◌, ◌>>◌, assert, not,
}

pub record SampleFifo {ℓ} (A : Type ℓ) : Type ℓ where
  pub storage : List A
  pub read : ℕ
  pub write : ℕ
  pub len : ℕ

-- `index += 1; if index == storage.len() { index = 0; }`
abbrev pub advance : ℕ → ℕ → ℕ
advance capacity index = if index + 1 == capacity then 0 else index + 1

module _ {ℓ} {A : Type ℓ} where
  unfoldable pub new : A → ℕ → Option (SampleFifo A)
  new silence capacity = do
    assert (ltb 0 capacity)
    some (record { storage = replicate capacity silence; read = 0; write = 0; len = 0 })

  -- One round of a push loop: `storage[write] = sample` panics out of range.
  unfoldable pub write_one : SampleFifo A → A → Option (SampleFifo A)
  write_one f sample = do
    assert (ltb f.write (length f.storage))
    some (record f {
      storage = set f.storage f.write sample;
      write = advance (length f.storage) f.write;
    })

  unfoldable pub write_all : SampleFifo A → List A → Option (SampleFifo A)
  write_all f [] = some f
  write_all f (sample ∷ samples) = write_one f sample >>= λ f'. write_all f' samples

  -- The number of samples that were taken, and the FIFO.
  unfoldable pub push_slice : SampleFifo A → List A → Option (ℕ × SampleFifo A)
  push_slice f samples = do
    let accepted = min (length samples) (length f.storage - f.len)
    f' ← write_all f (take accepted samples)
    some (accepted, record f' { len = f'.len + accepted })

  unfoldable pub write_zeros : A → SampleFifo A → ℕ → Option (SampleFifo A)
  write_zeros silence f zero = some f
  write_zeros silence f (suc count) = write_one f silence >>= λ f'. write_zeros silence f' count

  unfoldable pub push_zeros : A → SampleFifo A → ℕ → Option (ℕ × SampleFifo A)
  push_zeros silence f count = do
    let accepted = min count (length f.storage - f.len)
    f' ← write_zeros silence f accepted
    some (accepted, record f' { len = f'.len + accepted })

  -- `storage[read]` panics out of range.
  unfoldable pub pop : SampleFifo A → Option (Option A × SampleFifo A)
  pop f = if f.len == 0 then some (none, f) else (do
    sample ← get_elem? f.storage f.read
    some (some sample, record f { read = advance (length f.storage) f.read; len = f.len - 1 }))
