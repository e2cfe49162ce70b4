-- ===== src/Host/Adapter/Prime.antt =====
-- `prime_for_quantum` of crates/riaps-host/src/adapter_buf.rs: the reserve of silence.
use blockcat.Prelude.{
  ℕ, ◌-◌, ◌<◌, ◌≡◌, ◌∙◌, refl, sym, subst, arith, Option, none, some, ◌++◌, length, replicate, ap,
  max, ◌==◌, true, append-nil,
}
use blockcat.Host.Fifo
use blockcat.Host.Fifo.{SampleFifo}
use blockcat.Host.Fifo.Queue
use blockcat.Host.Fifo.Queue.{push_slice-Pushed, push_zeros-Pushed}
use blockcat.Host.Blocks.{Adapter, reserve, missing, next_quantum, next_latency}
use blockcat.Host.Adapter.{AdapterBuffer, prime, prime_for_quantum}
use blockcat.Host.Adapter.Gcd.{gcd_bounds}
use blockcat.Host.Adapter.Models.{Models}

reserve-lt : (d : ℕ) (q : Option ℕ) (h r : ℕ) → 0 < d → reserve d q h ≡ some r → r < d
unfolding reserve
reserve-lt d q h r pos e = ground (arith, gcd_bounds h d pos)

module _ {ℓ} {A : Type ℓ} where
  prime_of :
      (silence : A) (a : AdapterBuffer A) {f : SampleFifo A} (h r k : ℕ)
      → r - a.output_fifo.len ≡ k
      → Fifo.push_zeros silence a.output_fifo (r - a.output_fifo.len) ≡ some (k, f)
      → prime silence a h r
        ≡ some (
          k,
          record a {
            output_fifo = f;
            host_quantum = some h;
            latency_samples = max a.latency_samples r;
          },
        )
  unfolding prime
  prime_of silence a h r k same e =
      let equal : (k == r - a.output_fifo.len) ≡ true = ground arith in rw (e, equal)

module _ {ℓ κ} {A : Type ℓ} {S : Type κ} (c d : ℕ) where
  -- The adapter, its block size to compare with and its latency included.
  pub record Refines (a : AdapterBuffer A) (t : Adapter A S) : Type ℓ where
    pub models : Models c d a t.view
    pub quantum : a.host_quantum ≡ t.quantum
    pub latency : a.latency_samples ≡ t.latency

  prime-Refines :
      (silence : A) (a : AdapterBuffer A) (t : Adapter A S) (h r : ℕ)
      → Refines a t
      → r < d
      → (a' : AdapterBuffer A) × (prime silence a h r ≡ some (r - length t.view.output, a'))
        × Refines a' (record {
          view = record (t.view) {
            output = t.view.output ++ replicate (r - length t.view.output) silence;
          };
          quantum = some h;
          latency = max t.latency r;
        })
  prime-Refines silence a t h r m lt =
      let needed : ℕ = r - a.output_fifo.len in
      let (output, e, mo) =
        push_zeros-Pushed c silence a.output_fifo t.view.output needed m.models.output in
      let same : needed ≡ r - length t.view.output = omega (arith, m.models.output.count) in
      let all : Queue.fitting c t.view.output needed ≡ r - length t.view.output =
        omega (arith, m.models.enough, m.models.output.count, lt) in
      (
        record a {
          output_fifo = output;
          host_quantum = some h;
          latency_samples = max a.latency_samples r;
        },
        prime_of silence a h r (r - length t.view.output) same
            (subst (λ k. Fifo.push_zeros silence a.output_fifo needed ≡ some (k, output)) all e),
        record {
          models = record {
            input = m.models.input;
            output =
                subst (λ k. Queue.Models c output (t.view.output ++ replicate k silence)) all mo;
            block_in = m.models.block_in;
            block_out = m.models.block_out;
            same_scratch = m.models.same_scratch;
            target = m.models.target;
            positive = m.models.positive;
            enough = m.models.enough;
          };
          quantum = refl;
          latency = ap (λ k. max k r) m.latency;
        },
      )

  -- The adapter with the reserve `o` brought up to date.
  abbrev pub primed : A → Adapter A S → ℕ → Option ℕ → Adapter A S
  primed silence t h o = record {
    view = record (t.view) {
      output = t.view.output ++ replicate (missing o (length t.view.output)) silence;
    };
    quantum = next_quantum o t.quantum h;
    latency = next_latency o t.latency;
  }

  prime_for_quantum-none :
      (silence : A) (a : AdapterBuffer A) (t : Adapter A S) (h : ℕ)
      → Refines a t
      → reserve d t.quantum h ≡ none
      → prime_for_quantum silence a h ≡ some (0, a)
  unfolding prime_for_quantum reserve
  prime_for_quantum-none silence a t h m e = ground (arith, m.quantum)

  prime_for_quantum-some :
      (silence : A) (a : AdapterBuffer A) (t : Adapter A S) (h r : ℕ)
      → Refines a t
      → reserve d t.quantum h ≡ some r
      → prime_for_quantum silence a h ≡ prime silence a h r
  unfolding prime_for_quantum reserve
  prime_for_quantum-some silence a t h r m e = ground (arith, m.quantum, m.models.target)

  pub prime_for_quantum-Refines :
      (silence : A) (a : AdapterBuffer A) (t : Adapter A S) (h : ℕ) (o : Option ℕ)
      → Refines a t
      → reserve d t.quantum h ≡ o
      → (a' : AdapterBuffer A) × (prime_for_quantum silence a h
          ≡ some (missing o (length t.view.output), a'))
        × Refines a' (primed silence t h o)
  prime_for_quantum-Refines silence a t h none m e = (
    a,
    prime_for_quantum-none silence a t h m e,
    subst (λ q. Refines a (record t { view = record (t.view) { output = q } }))
        (sym (append-nil t.view.output)) m,
  )
  prime_for_quantum-Refines silence a t h (some r) m e =
      let (a', e', m') =
        prime-Refines silence a t h r m (reserve-lt d t.quantum h r m.models.positive e) in
      (a', prime_for_quantum-some silence a t h r m e ∙ e', m')
