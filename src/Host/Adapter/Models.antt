-- ===== src/Host/Adapter/Models.antt =====
-- The adapter of crates/riaps-host/src/adapter_buf.rs against the queues of `Host.Blocks`.
use native.Mathlib.Nat.{add-zero, div-add-mod', div-le_self, mod-lt}
use blockcat.Prelude.{
  true, false, ℕ, zero, suc, ◌+◌, ◌-◌, ◌*◌, ◌/◌, ◌≤◌, ◌<◌, ◌≡◌, ◌∙◌, refl, arith, some, List,
  length, take, length-take, length-drop, leb,
}
use blockcat.Host.Fifo.Queue.{push_slice-Pushed}
use blockcat.Host.Fifo.Queue
use blockcat.Host.Blocks.{View, round, rounds}
use blockcat.Host.Rounds.{KeepsLength}
use blockcat.Host.Adapter.{AdapterBuffer, drain_round, drain_loop, drain_complete_blocks}
use blockcat.Host.Adapter.Loops.{pop_block-Models}

module _ {ℓ κ} {A : Type ℓ} {S : Type κ} (c : ℕ) where
  -- The adapter `a` has queues of capacity `c` that hold the input and output of the view, and
  -- blocks of `d` samples.
  pub record Models (d : ℕ) (a : AdapterBuffer A) (v : View A S) : Type ℓ where
    pub input : Queue.Models c a.input_fifo v.input
    pub output : Queue.Models c a.output_fifo v.output
    pub block_in : length a.scratch_in ≡ d
    pub block_out : length v.scratch ≡ d
    pub same_scratch : a.scratch_out ≡ v.scratch
    pub target : a.target_block_size ≡ d
    pub positive : 0 < d
    pub enough : d + d ≤ c

-- What the loop over the blocks does not touch.
pub record IsSameSetup {ℓ} {A : Type ℓ} (a a' : AdapterBuffer A) : Type 0 where
  pub quantum : a'.host_quantum ≡ a.host_quantum
  pub latency : a'.latency_samples ≡ a.latency_samples

IsSameSetup-trans {ℓ} :
    {A : Type ℓ} (a b e : AdapterBuffer A) → IsSameSetup a b → IsSameSetup b e → IsSameSetup a e
IsSameSetup-trans a b e p q = record {
  quantum = q.quantum ∙ p.quantum;
  latency = q.latency ∙ p.latency;
}

module _ {ℓ κ} {A : Type ℓ} {S : Type κ} (c d : ℕ) (silence : A)
    (callback : S → List A → List A → S × List A) (keeps : KeepsLength callback) where
  drain_round-Models :
      (a : AdapterBuffer A) (v : View A S)
      → Models c d a v
      → d ≤ length v.input
      → let (v', dropped) = round c d callback v in
        (a' : AdapterBuffer A) × (drain_round silence callback v.state a
          ≡ some (v'.state, a', dropped))
        × Models c d a' v'
        × IsSameSetup a a'
  unfolding drain_round round
  drain_round-Models a v m le =
      let (input, e, mi) = pop_block-Models c d a.input_fifo v.input m.input le in
      let (s', out) = callback v.state (take d v.input) v.scratch in
      let (output, e', mo) = push_slice-Pushed c a.output_fifo v.output out m.output in
      (
        record a {
          input_fifo = input;
          output_fifo = output;
          scratch_in = take d v.input;
          scratch_out = out;
        },
        rw (m.block_in, e, m.same_scratch, e', m.target),
        record {
          input = mi;
          output = mo;
          block_in = omega (arith, length-take d v.input);
          block_out = keeps v.state (take d v.input) v.scratch ∙ m.block_out;
          same_scratch = refl;
          target = m.target;
          positive = m.positive;
          enough = m.enough;
        },
        record { quantum = refl; latency = refl },
      )

  length-input-round : (v : View A S) → length (round c d callback v).0.input ≡ length v.input - d
  unfolding round
  length-input-round v = length-drop d v.input

  -- The loop makes `k` rounds, where the input holds `k` whole blocks and less than one more.
  drain_loop-Models :
      (k fuel : ℕ) (a : AdapterBuffer A) (v : View A S) (blocks dropped : ℕ)
      → Models c d a v
      → k < fuel
      → k * d ≤ length v.input
      → length v.input < k * d + d
      → let (v', lost) = rounds c d callback k v dropped in
        (a' : AdapterBuffer A) × (drain_loop silence callback fuel v.state a blocks dropped
          ≡ some (v'.state, a', blocks + k, lost))
        × Models c d a' v'
        × IsSameSetup a a'
  unfolding drain_loop rounds
  drain_loop-Models k zero a v blocks dropped m lt lo hi = absurd (omega arith)
  drain_loop-Models zero (suc fuel) a v blocks dropped m lt lo hi =
      let done : leb a.target_block_size a.input_fifo.len ≡ false =
        ground (arith, m.target, m.input.count) in
      (a, rw (done, add-zero), m, record { quantum = refl; latency = refl })
  drain_loop-Models (suc k) (suc fuel) a v blocks dropped m lt lo hi =
      let (a', e, m', same) = drain_round-Models a v m (omega arith) in
      let rd = round c d callback v in
      let left : length rd.0.input ≡ length v.input - d = length-input-round v in
      let (a'', e', m'', same') =
        drain_loop-Models k fuel a' rd.0 (blocks + 1) (dropped + rd.1) m' (omega arith)
          (omega arith) (omega arith) in
      let more : leb a.target_block_size a.input_fifo.len ≡ true =
        ground (arith, m.target, m.input.count) in
      let count : blocks + suc k ≡ blocks + 1 + k = omega arith in
      (a'', rw (more, e, e', count), m'', IsSameSetup-trans a a' a'' same same')

  -- The fuel that the code's loop is given is enough, and it makes `length / d` rounds.
  pub drain_complete_blocks-Models :
      (a : AdapterBuffer A) (v : View A S)
      → Models c d a v
      → let (v', lost) = rounds c d callback (length v.input / d) v 0 in
        (a' : AdapterBuffer A) × (drain_complete_blocks silence callback v.state a
          ≡ some (v'.state, a', length v.input / d, lost))
        × Models c d a' v'
        × IsSameSetup a a'
  unfolding drain_complete_blocks
  drain_complete_blocks-Models a v m =
      let split = div-add-mod' (length v.input) d in
      let (a', e, m', same) =
        drain_loop-Models (length v.input / d) (a.input_fifo.len + 1) a v 0 0 m
          (omega (arith, m.input.count, div-le_self (length v.input) d)) (omega (arith, split))
          (omega (arith, split, mod-lt (length v.input) m.positive)) in
      let count : 0 + length v.input / d ≡ length v.input / d = omega arith in
      (a', e ∙ rw count, m', same)
