-- ===== src/Dsp/EventBus/Models.antt =====
-- `emit` and `drain` of crates/riaps-dsp/src/event_bus.rs act on a queue of events.
use native.Mathlib.Nat.{mod-add-mod}
use blockcat.Prelude.{
  ℕ, Bool, suc, ◌+◌, ◌%◌, ◌<◌, ◌≡◌, ◌∙◌, refl, sym, ap, subst, arith, true, false, Bool-cases, inl,
  inr, not, ◌&&◌, some, List, [], ◌∷◌, ◌++◌, length, leb, ltb, if◌then◌else◌, u32_mod,
}
use blockcat.Core.Spsc
use blockcat.Core.Spsc.{SpscRing, capacity_left}
use blockcat.Core.Spsc.Calls.{IsSound}
use blockcat.Core.Spsc.Models.{
  IsCapacity, Models as RingModels, len-Models, capacity_left-Models, push_full, push_ok,
}
use blockcat.Core.Spsc.Steps.{push-Models, IsSound-after}
use blockcat.Core.Spsc.Drain.{pop_each-Models}
use blockcat.Core.Spsc.Refine.{fresh, fresh-Models, new-fresh}
use blockcat.Dsp.EventBus.{
  EventBus, KernelEvent, reserved_slots, is_fatal, new, emit, drain, count_drop, settle,
}

-- What the bus does with an event while it holds `q`.
unfoldable pub accepts : ℕ → List KernelEvent → KernelEvent → Bool
accepts n q event = if is_fatal event then ltb (length q) n else ltb (length q + reserved_slots) n

module _ {n : ℕ} where
  -- The bus holds `q`, has dropped `dropped` events, and is good for `k` more.
  pub record Models (b : EventBus n) (q : List KernelEvent) (dropped k : ℕ) : Type 0 where
    pub ring : RingModels b.ring q
    pub sound : IsSound n (b.ring.head + length q) k
    pub counter : b.overflow_counter ≡ dropped % u32_mod

  Models-weaken :
      (b : EventBus n) (q : List KernelEvent) (dropped k : ℕ)
      → Models b q dropped (suc k)
      → Models b q dropped k
  Models-weaken b q dropped k m = record {
    ring = m.ring;
    sound =
        IsSound-after n (b.ring.head + length q) (b.ring.head + length q) (suc k) k m.sound
          (λ h. omega arith);
    counter = m.counter;
  }

  count_drop-Models :
      (b : EventBus n) (q : List KernelEvent) (dropped k : ℕ)
      → Models b q dropped (suc k)
      → Models (count_drop b) q (suc dropped) k
  count_drop-Models b q dropped k m = record {
    ring = m.ring;
    sound = (Models-weaken b q dropped k m).sound;
    counter =
        ap (λ c. (c + 1) % u32_mod) m.counter
        ∙ mod-add-mod dropped u32_mod 1
        ∙ ap (λ c. c % u32_mod) (omega arith);
  }

  emit_passed :
      (b : EventBus n) (event : KernelEvent)
      → (leb (capacity_left b.ring) reserved_slots && not (is_fatal event)) ≡ false
      → emit b event ≡ settle b (Spsc.push b.ring event)
  unfolding emit
  emit_passed b event pass = rw pass

  emit_stopped :
      (b : EventBus n) (event : KernelEvent)
      → (leb (capacity_left b.ring) reserved_slots && not (is_fatal event)) ≡ true
      → emit b event ≡ count_drop b
  unfolding emit
  emit_stopped b event stop = rw stop

  -- An event that is accepted goes behind the queue.
  pub emit-accepted :
      (b : EventBus n) (q : List KernelEvent) (dropped k : ℕ) (event : KernelEvent)
      → IsCapacity n
      → Models b q dropped (suc k)
      → accepts n q event ≡ true
      → Models (emit b event) (q ++ (event ∷ [])) dropped k
  unfolding accepts
  emit-accepted b q dropped k event c m fits =
      let left = capacity_left-Models b.ring q c m.ring in
      let room : length q < n = ground arith in
      let pass : (leb (capacity_left b.ring) reserved_slots && not (is_fatal event)) ≡ false =
        ground arith in
      let (m', s') = push-Models b.ring q event k c m.ring m.sound room in
      subst (λ b'. Models b' (q ++ (event ∷ [])) dropped k)
        (sym (emit_passed b event pass ∙ ap (settle b) (push_ok b.ring q event c m.ring room)))
        (record { ring = m'; sound = s'; counter = m.counter })

  -- An event that is not is counted.
  pub emit-refused :
      (b : EventBus n) (q : List KernelEvent) (dropped k : ℕ) (event : KernelEvent)
      → IsCapacity n
      → Models b q dropped (suc k)
      → accepts n q event ≡ false
      → Models (emit b event) q (suc dropped) k
  unfolding accepts
  emit-refused b q dropped k event c m over = elim (Bool-cases (is_fatal event)) [
    | inl fatal ↦
        let full : length q ≡ n = ground (arith, m.ring.room) in
        let pass : (leb (capacity_left b.ring) reserved_slots && not (is_fatal event)) ≡ false =
          ground arith in
        subst (λ b'. Models b' q (suc dropped) k)
          (sym (emit_passed b event pass ∙ ap (settle b) (push_full b.ring q event c m.ring full)))
          (count_drop-Models b q dropped k m)
    | inr minor ↦
        let left = capacity_left-Models b.ring q c m.ring in
        let stop : (leb (capacity_left b.ring) reserved_slots && not (is_fatal event)) ≡ true =
          ground arith in
        subst (λ b'. Models b' q (suc dropped) k) (sym (emit_stopped b event stop))
          (count_drop-Models b q dropped k m)
  ]

  pub drain-Models :
      (b : EventBus n) (q : List KernelEvent) (dropped k : ℕ)
      → IsCapacity n
      → Models b q dropped k
      → (b' : EventBus n) × (drain b ≡ some (q, b')) × Models b' [] dropped k
  unfolding drain
  drain-Models b q dropped k c m =
      let (r, e, m', s') =
        pop_each-Models (Spsc.len b.ring + 1) b.ring q k c m.ring m.sound
          (omega (arith, len-Models b.ring q c m.ring)) in
      (record b { ring = r }, rw e, record { ring = m'; sound = s'; counter = m.counter })

  pub new-Models :
      (k : ℕ)
      → IsCapacity n
      → reserved_slots < n
      → IsSound n 0 k
      → (b : EventBus n) × (new n ≡ some b) × Models b [] 0 k
  unfolding new
  new-Models k c room s = (
    record { ring = fresh; overflow_counter = 0 },
    (let e : ltb reserved_slots n ≡ true = ground arith in rw (e, new-fresh c)),
    record { ring = fresh-Models c; sound = s; counter = refl },
  )
