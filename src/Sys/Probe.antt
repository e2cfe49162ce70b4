-- ===== src/Sys/Probe.antt =====
-- crates/riaps-sys/src/probe.rs: the performance probe, on the ring of crates/riaps-core/src/spsc.rs.
-- The platform's clock is a parameter: `tick i` is what the reading number `i` gives.
pub mod Nested
pub mod Recorded
mod Tests
use blockcat.Prelude.{
  ℕ, zero, suc, ◌+◌, Bool, true, false, not, Option, none, some, List, [], ◌∷◌, Result, ok, err,
  ltb, if◌then◌else◌, u32_add, u32_sub, ◌>>=◌,
}
use blockcat.Core.Spsc
use blockcat.Core.Spsc.{SpscRing, SpscError}
use blockcat.Core.Spsc.Drain.{pop_each}

pub record ProbeRecord : Type 0 where
  pub node_id : ℕ
  pub start_tick : ℕ
  pub end_tick : ℕ

pub record PerformanceProbe : Type 0 where
  pub ring : SpscRing ProbeRecord 1024
  pub enabled : Bool
  pub nesting_depth : ℕ
  pub overflow_counter : ℕ

-- `none` would be a failed assertion of the ring's constructor.
pub new : Option PerformanceProbe
new = do
  ring ← Spsc.new 1024
  some (record { ring = ring; enabled = false; nesting_depth = 0; overflow_counter = 0 })

pub set_enabled : PerformanceProbe → Bool → PerformanceProbe
set_enabled p on = record p { enabled = on }

-- The probe, and how often the clock was read.
pub record World : Type 0 where
  pub probe : PerformanceProbe
  pub readings : ℕ

-- `nesting_depth.fetch_sub(1)`, and the count of a record that is dropped.
abbrev pub leave : PerformanceProbe → PerformanceProbe
leave p = record p { nesting_depth = u32_sub p.nesting_depth 1 }

-- `if producer.push(record).is_err()`
abbrev settle :
    PerformanceProbe → Result (Unit {0}) ProbeRecord × SpscRing ProbeRecord 1024 → PerformanceProbe
settle p (ok _, ring) = record p { ring = ring }
settle p (err _, ring) = record p { ring = ring; overflow_counter = u32_add p.overflow_counter 1 }

-- `nesting_depth.fetch_add(1)`, and a nested call.
abbrev pub enter : World → World
enter w = record w { probe = record (w.probe) { nesting_depth = u32_add w.probe.nesting_depth 1 } }

abbrev pub inner : (World → World) → World → World
inner f w = let w' = f (enter w) in record w' { probe = leave w'.probe }

module _ (tick : ℕ → ℕ) where
  -- What follows the closure in the outermost call: the second reading, the record, the depth.
  abbrev pub finish : ℕ → ℕ → World → World
  finish node_id start w = record {
    probe = leave (
        settle w.probe (
          Spsc.push w.probe.ring
            (record { node_id = node_id; start_tick = start; end_tick = tick w.readings })));
    readings = w.readings + 1;
  }

  -- The outermost call, at depth 1: `f` is the closure.
  pub outermost : ℕ → (World → World) → World → World
  outermost node_id f w =
      finish node_id (tick w.readings) (f (record w { readings = w.readings + 1 }))

  pub measure : ℕ → (World → World) → World → World
  measure node_id f w =
      if not w.probe.enabled
      then f w
      else if ltb 0 w.probe.nesting_depth
      then inner f w
      else outermost node_id f (enter w)

-- The records that the sink gets, in order, as for the event bus.
pub drain : PerformanceProbe → Option (List ProbeRecord × PerformanceProbe)
drain p = do
  (records, ring) ← pop_each (Spsc.len p.ring + 1) p.ring
  some (records, record p { ring = ring })

-- `drain_batch::<M>`: `ok()` forgets the error.
pub drain_batch : PerformanceProbe → ℕ → Option (Option (List ProbeRecord) × PerformanceProbe)
drain_batch p m = do
  (result, ring) ← Spsc.pop_slice_copy p.ring m
  elim result [
    | ok records ↦ some (some records, record p { ring = ring })
    | err _ ↦ some (none, record p { ring = ring })
  ]
