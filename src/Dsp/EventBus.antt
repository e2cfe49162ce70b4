-- ===== src/Dsp/EventBus.antt =====
-- crates/riaps-dsp/src/event_bus.rs: one shard of the event bus, with one producer and one consumer.
-- The bus stands on the ring of crates/riaps-core/src/spsc.rs.
pub mod Models
pub mod Reserved
pub mod Session
mod Tests
use blockcat.Prelude.{
  ℕ, ℤ, zero, suc, ◌+◌, Bool, true, false, not, ◌&&◌, Option, some, List, [], ◌∷◌, Result, ok, err,
  ltb, leb, if◌then◌else◌, ◌>>=◌, ◌>>◌, assert, u32_add,
}
use blockcat.Core.Spsc
use blockcat.Core.Spsc.{SpscRing}
use blockcat.Core.Spsc.Drain.{pop_each}

abbrev pub reserved_slots : ℕ
reserved_slots = 8

pub data StopReason : Type 0 where
  requested : StopReason
  host_error : StopReason
  panic : StopReason

pub record SpscBackpressureEvent : Type 0 where
  pub occupancy_pct : ℕ

pub record GcBackpressureEvent : Type 0 where
  pub level : ℕ

-- The numbers of `thread_provisioner_fallback` are the priorities `requested` and `granted`.
pub data KernelEvent : Type 0 where
  spsc_backpressure : SpscBackpressureEvent → KernelEvent
  spsc_overflow : (dropped_commands : ℕ) → KernelEvent
  gc_backpressure : GcBackpressureEvent → KernelEvent
  gc_emergency_slot_used : (slot_index : ℕ) → KernelEvent
  gc_orphan_reclaimed : (count : ℕ) → KernelEvent
  log_queue_overflow : (dropped_records : ℕ) → KernelEvent
  log_flush_complete : (records_flushed : ℕ) → KernelEvent
  fpu_subnormal_detected : (count : ℕ) → KernelEvent
  audio_thread_started : KernelEvent
  audio_thread_stopped : (reason : StopReason) → KernelEvent
  shutdown_progress : (step total : ℕ) → KernelEvent
  host_adapter_block_size_changed : (old new : ℕ) → KernelEvent
  thread_provisioner_fallback : ℤ → ℤ → KernelEvent
  performance_probe_overload : (node_id elapsed_us budget_us : ℕ) → KernelEvent

unfoldable pub is_fatal : KernelEvent → Bool
is_fatal (audio_thread_stopped _) = true
is_fatal (host_adapter_block_size_changed _ _) = true
is_fatal (spsc_overflow _) = true
is_fatal _ = false

pub record EventBus (n : ℕ) : Type 0 where
  pub ring : SpscRing KernelEvent n
  pub overflow_counter : ℕ

-- `none` where the assertion on the capacity panics.
pub new : (n : ℕ) → Option (EventBus n)
new n = do
  assert (ltb reserved_slots n)
  ring ← Spsc.new n
  some (record { ring = ring; overflow_counter = 0 })

module _ {n : ℕ} where
  abbrev count_drop : EventBus n → EventBus n
  count_drop b = record b { overflow_counter = u32_add b.overflow_counter 1 }

  -- `if producer.push(event).is_err()`
  abbrev settle : EventBus n → Result (Unit {0}) KernelEvent × SpscRing KernelEvent n → EventBus n
  settle b (ok _, ring) = record b { ring = ring }
  settle b (err _, ring) = count_drop (record b { ring = ring })

  pub emit : EventBus n → KernelEvent → EventBus n
  emit b event =
      if leb (Spsc.capacity_left b.ring) reserved_slots && not (is_fatal event)
      then count_drop b
      else settle b (Spsc.push b.ring event)

  -- The events that the sink gets, in order. `none` is undefined behaviour of the ring, or the end
  -- of the fuel: the loop pops as many events as the ring holds, and then finds it empty.
  pub drain : EventBus n → Option (List KernelEvent × EventBus n)
  drain b = do
    (events, ring) ← pop_each (Spsc.len b.ring + 1) b.ring
    some (events, record b { ring = ring })

  unfoldable pub overflow_count : EventBus n → ℕ
  overflow_count b = b.overflow_counter

  pub len : EventBus n → ℕ
  len b = Spsc.len b.ring

  pub is_empty : EventBus n → Bool
  is_empty b = Spsc.is_empty b.ring
