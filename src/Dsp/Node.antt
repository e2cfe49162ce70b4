-- ===== src/Dsp/Node.antt =====
-- crates/riaps-dsp/src/node.rs: the parameter queue of a node, and the gain node. Floats are a type
-- with the operations that the code calls. The queue stands on the ring of
-- crates/riaps-core/src/spsc.rs.
pub mod Models
pub mod Session
mod Tests
use blockcat.Prelude.{
  ℕ, zero, suc, ◌+◌, Bool, true, false, Option, none, some, List, [], ◌∷◌, Result, ok, err,
  if◌then◌else◌, ◌>>=◌,
}
use blockcat.Core.Spsc
use blockcat.Core.Spsc.{SpscRing}

pub record ProcessContext : Type 0 where
  pub sample_rate : ℕ
  pub block_size : ℕ

-- `f32`, as far as the nodes use it.
pub record Floats {ℓ} (F : Type ℓ) : Type ℓ where
  pub multiply : F → F → F
  pub divide : F → F → F
  pub powf : F → F → F
  pub ten : F
  pub twenty : F

pub record ParameterQueue {ℓ} (A : Type ℓ) (n : ℕ) : Type ℓ where
  pub ring : SpscRing A n

module _ {ℓ} {A : Type ℓ} where
  unfoldable pub new_queue : (n : ℕ) → Option (ParameterQueue A n)
  new_queue n = do ring ← Spsc.new n; some (record { ring = ring })

  -- `Result::is_ok`
  abbrev is_ok : Result (Unit {0}) A → Bool
  is_ok (ok _) = true
  is_ok (err _) = false

module _ {ℓ} {A : Type ℓ} {n : ℕ} where
  pub try_push : ParameterQueue A n → A → Bool × ParameterQueue A n
  try_push q value =
      let (result, ring) = Spsc.push q.ring value in (is_ok result, record { ring = ring })

  -- `while let Some(v) = consumer.pop()` on fuel, with `dst` and `updated` so far.
  pub drain_loop : ℕ → SpscRing A n → A → Bool → Option (Bool × A × SpscRing A n)
  drain_loop zero ring dst updated = none
  drain_loop (suc fuel) ring dst updated = do
    (popped, ring') ← Spsc.pop ring
    elim popped [ none ↦ some (updated, dst, ring') | some v ↦ drain_loop fuel ring' v true ]

  -- The loop pops as many values as the ring holds, and then finds it empty.
  pub drain_to : ParameterQueue A n → A → Option (Bool × A × ParameterQueue A n)
  drain_to q dst = do
    (updated, dst', ring) ← drain_loop (Spsc.len q.ring + 1) q.ring dst false
    some (updated, dst', record { ring = ring })

pub record GainNode {ℓ} (F : Type ℓ) : Type ℓ where
  pub gain_db : F
  pub gain_lin : F
  pub param_db : ParameterQueue F 16

module _ {ℓ} {F : Type ℓ} (floats : Floats F) where
  unfoldable pub db_to_linear : F → F
  db_to_linear db = floats.powf floats.ten (floats.divide db floats.twenty)

  unfoldable pub new : F → Option (GainNode F)
  new gain_db = do
    queue ← new_queue 16
    some (record { gain_db = gain_db; gain_lin = db_to_linear gain_db; param_db = queue })

  -- `for (o, i) in outputs.iter_mut().zip(inputs.iter())`: the new content of the outputs.
  unfoldable pub scale : F → List F → List F → List F
  scale g (i ∷ inputs) (o ∷ outputs) = floats.multiply i g ∷ scale g inputs outputs
  scale g [] outputs = outputs
  scale g (i ∷ inputs) [] = []

  unfoldable pub process : GainNode F → List F → List F → Option (GainNode F × List F)
  process node inputs outputs = do
    (updated, db, queue) ← drain_to node.param_db node.gain_db
    let drained = record node { param_db = queue }
    let node' =
        if updated then record drained { gain_db = db; gain_lin = db_to_linear db } else drained
    some (node', scale node'.gain_lin inputs outputs)
