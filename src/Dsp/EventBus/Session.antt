-- ===== src/Dsp/EventBus/Session.antt =====
-- Whole sessions with crates/riaps-dsp/src/event_bus.rs: the producer emits, the consumer drains.
use blockcat.Prelude.{
  ℕ, Bool, suc, ◌+◌, ◌-◌, ◌%◌, ◌<◌, ◌≡◌, ◌∙◌, refl, sym, ap, arith, true, false, Bool-cases, inl,
  inr, Option, some, List, [], ◌∷◌, ◌++◌, length, length-append, append_assoc, append-nil, ◌>>=◌,
  u32_mod,
}
use blockcat.Core.Spsc.Calls.{IsSound}
use blockcat.Core.Spsc.Models.{IsCapacity}
use blockcat.Dsp.EventBus.{
  EventBus, KernelEvent, reserved_slots, is_fatal, new, emit, drain, overflow_count,
}
use blockcat.Dsp.EventBus.Models.{
  Models, accepts, emit-accepted, emit-refused, drain-Models, new-Models,
}
use blockcat.Dsp.EventBus.Reserved.{
  fatals, fatals-append, fatals_minor, IsReserved, accepts_fatal, accepts_room, append_fatal,
  append_minor,
}

pub data Action : Type 0 where
  emits : KernelEvent → Action
  drains : Action

unfoldable pub emitted : List Action → List KernelEvent
emitted [] = []
emitted (Action.emits e ∷ actions) = e ∷ emitted actions
emitted (Action.drains ∷ actions) = emitted actions

abbrev Either : Bool → Type 0 → Type 0 → Type 0
Either true P Q = P
Either false P Q = Q

either_true : (b : Bool) (P Q : Type 0) → b ≡ true → Either b P Q → P
either_true true P Q e p = p
either_true false P Q e q = absurd (ground arith)

either_false : (b : Bool) (P Q : Type 0) → b ≡ false → Either b P Q → Q
either_false true P Q e p = absurd (ground arith)
either_false false P Q e q = q

-- At most `k` fatal events before the next drain, and at most eight between two drains.
unfoldable pub FewFatal : ℕ → List Action → Type 0
FewFatal k [] = Unit
FewFatal k (Action.emits e ∷ actions) =
    Either (is_fatal e) ((0 < k) × FewFatal (k - 1) actions) (FewFatal k actions)
FewFatal k (Action.drains ∷ actions) = FewFatal reserved_slots actions

module _ {n : ℕ} where
  -- The events that the sinks of all drains get, in order.
  unfoldable pub run : EventBus n → List Action → Option (List KernelEvent × EventBus n)
  run b [] = some ([], b)
  run b (Action.emits e ∷ actions) = run (emit b e) actions
  run b (Action.drains ∷ actions) = do
    (events, b') ← drain b
    (rest, b'') ← run b' actions
    some (events ++ rest, b'')

-- What a session comes to: the fatal events all arrive, and every event arrives, waits or is counted.
record Ends {n : ℕ} (b : EventBus n) (actions : List Action) (q : List KernelEvent) (dropped : ℕ)
    : Type 0 where
  out : List KernelEvent
  last : EventBus n
  left : List KernelEvent
  lost : ℕ
  ran : run b actions ≡ some (out, last)
  holds : Models last left lost 0
  kept : fatals (out ++ left) ≡ fatals q ++ fatals (emitted actions)
  counted : length (out ++ left) + lost ≡ length q + dropped + length (emitted actions)

module _ {n : ℕ} (c : IsCapacity n) where
  drain-Ends :
      (b : EventBus n) (actions : List Action) (q : List KernelEvent) (dropped : ℕ)
      (b' : EventBus n)
      → drain b ≡ some (q, b')
      → Ends b' actions [] dropped
      → Ends b (Action.drains ∷ actions) q dropped
  unfolding run fatals emitted
  drain-Ends b actions q dropped b' e ends = record {
    out = q ++ ends.out;
    last = ends.last;
    left = ends.left;
    lost = ends.lost;
    ran = rw (e, ends.ran);
    holds = ends.holds;
    kept =
        ap fatals (append_assoc q ends.out ends.left)
        ∙ fatals-append q (ends.out ++ ends.left)
        ∙ ap (λ t. fatals q ++ t) ends.kept;
    counted = omega (
      arith,
      ends.counted,
      length-append (q ++ ends.out) ends.left,
      length-append q ends.out,
      length-append ends.out ends.left,
    );
  }

  emit-Ends :
      (b : EventBus n) (e : KernelEvent) (actions : List Action) (q q' : List KernelEvent)
      (dropped dropped' : ℕ)
      → fatals q' ≡ fatals q ++ fatals (e ∷ [])
      → length q' + dropped' ≡ length q + dropped + 1
      → Ends (emit b e) actions q' dropped'
      → Ends b (Action.emits e ∷ actions) q dropped
  unfolding run emitted
  emit-Ends b e actions q q' dropped dropped' same count ends = record {
    out = ends.out;
    last = ends.last;
    left = ends.left;
    lost = ends.lost;
    ran = ends.ran;
    holds = ends.holds;
    kept =
        ends.kept
        ∙ ap (λ t. t ++ fatals (emitted actions)) same
        ∙ append_assoc (fatals q) (fatals (e ∷ [])) (fatals (emitted actions))
        ∙ ap (λ t. fatals q ++ t) (sym (fatals-append (e ∷ []) (emitted actions)));
    counted = omega (arith, ends.counted, count);
  }

  reserved-Ends :
      (b : EventBus n) (actions : List Action) (q : List KernelEvent) (dropped k : ℕ)
      → reserved_slots < n
      → Models b q dropped (length (emitted actions))
      → IsReserved n q k
      → FewFatal k actions
      → Ends b actions q dropped
  unfolding run emitted FewFatal fatals
  reserved-Ends b [] q dropped k big m r few = record {
    out = [];
    last = b;
    left = q;
    lost = dropped;
    ran = refl;
    holds = m;
    kept = sym (append-nil (fatals q));
    counted = omega arith;
  }
  reserved-Ends b (Action.drains ∷ actions) q dropped k big m r few =
      let (b', e, m') = drain-Models b q dropped (length (emitted actions)) c m in
      drain-Ends b actions q dropped b' e (
        reserved-Ends b' actions [] dropped reserved_slots big m'
          (record { slots = omega arith; allowance = omega arith }) few)
  reserved-Ends b (Action.emits e ∷ actions) q dropped k big m r few =
      elim (Bool-cases (is_fatal e)) [
        | inl fatal ↦
            let (pos, rest) =
              either_true (is_fatal e) ((0 < k) × FewFatal (k - 1) actions) (FewFatal k actions)
                fatal few in
            let fits = accepts_fatal n q e fatal (omega (arith, r.slots, r.allowance)) in
            emit-Ends b e actions q (q ++ (e ∷ [])) dropped dropped (fatals-append q (e ∷ []))
              (omega (arith, length-append q (e ∷ [])))
              (reserved-Ends (emit b e) actions (q ++ (e ∷ [])) dropped (k - 1) big
                (emit-accepted b q dropped (length (emitted actions)) e c m fits)
                (append_fatal q e k fatal pos r) rest)
        | inr minor ↦
            let rest =
              either_false (is_fatal e) ((0 < k) × FewFatal (k - 1) actions) (FewFatal k actions)
                minor few in
            elim (Bool-cases (accepts n q e)) [
              | inl fits ↦
                  emit-Ends b e actions q (q ++ (e ∷ [])) dropped dropped (fatals-append q (e ∷ []))
                    (omega (arith, length-append q (e ∷ [])))
                    (reserved-Ends (emit b e) actions (q ++ (e ∷ [])) dropped k big
                      (emit-accepted b q dropped (length (emitted actions)) e c m fits)
                      (append_minor q e k minor (accepts_room n q e fits minor) r) rest)
              | inr over ↦
                  emit-Ends b e actions q q dropped (suc dropped)
                    (sym (append-nil (fatals q))
                      ∙ ap (λ t. fatals q ++ t) (sym (fatals_minor e minor)))
                    (omega arith)
                    (reserved-Ends (emit b e) actions q (suc dropped) k big
                      (emit-refused b q dropped (length (emitted actions)) e c m over) r rest)
            ]
      ]

  -- From a new bus on, if no more than eight fatal events are emitted between two drains, every
  -- fatal event reaches the sink or waits in the bus at the end, in the order of emission, whatever
  -- else is emitted. The bus waits in a state that holds the events `left`, and every event emitted
  -- is delivered, left, or counted by `overflow_count` modulo 2^32. The capacity `n` is above 8 and
  -- below 2^64, and it divides 2^64 or at most 2^64 events are emitted.
  pub fatal_events_delivered :
      (actions : List Action)
      → reserved_slots < n
      → IsSound n 0 (length (emitted actions))
      → FewFatal reserved_slots actions
      → (b : EventBus n) × (b' : EventBus n) × (out : List KernelEvent) × (left : List KernelEvent)
        × (lost : ℕ) × (new n ≡ some b)
        × (run b actions ≡ some (out, b'))
        × (fatals (out ++ left) ≡ fatals (emitted actions))
        × (length (out ++ left) + lost ≡ length (emitted actions))
        × (overflow_count b' ≡ lost % u32_mod)
        × Models b' left lost 0
  unfolding fatals overflow_count
  fatal_events_delivered actions big sound few =
      let (b, made, m) = new-Models (length (emitted actions)) c big sound in
      let ends =
        reserved-Ends b actions [] 0 reserved_slots big m
          (record { slots = omega arith; allowance = omega arith }) few in
      (
        b,
        ends.last,
        ends.out,
        ends.left,
        ends.lost,
        made,
        ends.ran,
        ends.kept,
        omega (arith, ends.counted),
        ends.holds.counter,
        ends.holds,
      )
