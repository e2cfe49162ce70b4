-- ===== src/Dsp/EventBus/Tests.antt =====
-- Runs of the bus, and its theorem at a concrete bus.
use blockcat.Prelude.{
  ℕ, ◌+◌, ◌%◌, ◌≡◌, refl, arith, some, inr, List, [], ◌∷◌, ◌++◌, length, u32_mod,
}
use blockcat.Dsp.EventBus.{EventBus, KernelEvent, StopReason, is_fatal, new, overflow_count}
use blockcat.Dsp.EventBus.Models.{Models}
use blockcat.Dsp.EventBus.Reserved.{fatals}
use blockcat.Dsp.EventBus.Session.{
  Action, emits, drains, run, emitted, FewFatal, fatal_events_delivered,
}

abbrev probe : ℕ → KernelEvent
probe i = KernelEvent.performance_probe_overload i 2000 1000

abbrev stopped : KernelEvent
stopped = KernelEvent.audio_thread_stopped StopReason.host_error

-- With nine slots, one probe event gets in, the next does not, and a fatal event still does.
abbrev script : List Action
script =
    emits (probe 0)
    ∷ emits (probe 1)
    ∷ emits stopped
    ∷ drains
    ∷ emits (KernelEvent.spsc_overflow 3)
    ∷ emits (probe 2)
    ∷ []

script-FewFatal : FewFatal 8 script
unfolding FewFatal is_fatal
script-FewFatal = (omega arith, (omega arith, tt))

fatals-script : fatals (emitted script) ≡ stopped ∷ KernelEvent.spsc_overflow 3 ∷ []
unfolding fatals emitted is_fatal
fatals-script = refl

length-emitted-script : length (emitted script) ≡ 5
unfolding emitted
length-emitted-script = refl

fatal_events_delivered_example :
    (b : EventBus 9) × (b' : EventBus 9) × (out : List KernelEvent) × (left : List KernelEvent)
    × (lost : ℕ) × (new 9 ≡ some b)
    × (run b script ≡ some (out, b'))
    × (fatals (out ++ left) ≡ fatals (emitted script))
    × (length (out ++ left) + lost ≡ length (emitted script))
    × (overflow_count b' ≡ lost % u32_mod)
    × Models b' left lost 0
fatal_events_delivered_example =
    fatal_events_delivered (record { positive = omega arith; small = omega arith }) script
      (omega arith) (inr (omega (arith, length-emitted-script))) script-FewFatal
