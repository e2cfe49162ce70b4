-- ===== src/Sys/Probe/Recorded.antt =====
-- The records that nested measurements with crates/riaps-sys/src/probe.rs leave in the ring.
use native.Mathlib.Nat.{dvd_of_mod-eq-zero, mod-add-mod}
use blockcat.Prelude.{
  ℕ, suc, ◌+◌, ◌-◌, ◌%◌, ◌<◌, ◌≡◌, ◌∙◌, refl, sym, ap, subst, arith, ℕ_discrete, true, false, inl,
  some, List, [], ◌∷◌, ◌++◌, append_assoc, append-nil, length, length-append, take,
  take_of_length_le, u32_mod,
}
use blockcat.Core.Spsc
use blockcat.Core.Spsc.Models.{IsCapacity, Models as RingModels, len-Models, push_full, push_ok}
use blockcat.Core.Spsc.Steps.{push-Models}
use blockcat.Core.Spsc.Drain.{pop_each-Models}
use blockcat.Core.Spsc.Refine.{fresh, fresh-Models, new-fresh}
use blockcat.Sys.Probe.{
  ProbeRecord, PerformanceProbe, new, set_enabled, World, leave, enter, settle, drain,
}
use blockcat.Sys.Probe.Nested.{
  Code, done, measures, depth, perform, entries, entry, after, measure-after, perform_disabled,
}

module _ (tick : ℕ → ℕ) where
  -- The probe is on, at depth 0, and holds `q`; `dropped` records did not fit.
  record Holds (p : PerformanceProbe) (q : List ProbeRecord) (dropped : ℕ) : Type 0 where
    on : p.enabled ≡ true
    level : p.nesting_depth ≡ 0
    ring : RingModels p.ring q
    counter : p.overflow_counter ≡ dropped % u32_mod

  capacity : IsCapacity 1024
  capacity = record { positive = omega arith; small = omega arith }

  after-Holds_room :
      (node_id : ℕ) (w : World) (q : List ProbeRecord) (dropped : ℕ)
      → Holds w.probe q dropped
      → length q < 1024
      → Holds (after tick node_id w).probe (q ++ (entry tick node_id w.readings ∷ [])) dropped
  after-Holds_room node_id w q dropped h room =
      let e = entry tick node_id w.readings in
      let (m, s) =
        push-Models w.probe.ring q e 0 capacity h.ring (inl (dvd_of_mod-eq-zero 1024 refl)) room in
      subst (λ r. Holds (leave (settle (enter w).probe r)) (q ++ (e ∷ [])) dropped)
        (sym (push_ok w.probe.ring q e capacity h.ring room))
        (record { on = h.on; level = omega (arith, h.level); ring = m; counter = h.counter })

  after-Holds_full :
      (node_id : ℕ) (w : World) (q : List ProbeRecord) (dropped : ℕ)
      → Holds w.probe q dropped
      → length q ≡ 1024
      → Holds (after tick node_id w).probe q (suc dropped)
  after-Holds_full node_id w q dropped h full =
      let e = entry tick node_id w.readings in
      subst (λ r. Holds (leave (settle (enter w).probe r)) q (suc dropped))
        (sym (push_full w.probe.ring q e capacity h.ring full))
        (record {
          on = h.on;
          level = omega (arith, h.level);
          ring = h.ring;
          counter =
              ap (λ k. (k + 1) % u32_mod) h.counter
              ∙ mod-add-mod dropped u32_mod 1
              ∙ ap (λ k. k % u32_mod) (omega arith);
        })

  Holds-same :
      (p : PerformanceProbe) (q q' : List ProbeRecord) (dropped dropped' : ℕ)
      → q ≡ q'
      → dropped ≡ dropped'
      → Holds p q dropped
      → Holds p q' dropped'
  Holds-same p q q' dropped dropped' e e' h =
      subst (λ xs. Holds p xs dropped') e (subst (Holds p q) e' h)

  -- What fits is kept, in order; the rest is counted.
  perform-Holds :
      (c : Code) (w : World) (q : List ProbeRecord) (dropped : ℕ)
      → Holds w.probe q dropped
      → depth c < u32_mod
      → Holds
          (perform tick c w).probe
          (q ++ take (1024 - length q) (entries tick c w.readings))
          (dropped + (length (entries tick c w.readings) - (1024 - length q)))
  unfolding perform entries depth
  perform-Holds done w q dropped h small =
      Holds-same w.probe q _ dropped _
        (sym (
          ap (λ xs. q ++ xs) (take_of_length_le (1024 - length q) [] (omega arith)) ∙ append-nil q))
        (omega arith) h
  perform-Holds (measures node_id body next) w q dropped h small =
      let e = entry tick node_id w.readings in
      let es = entries tick next (w.readings + 1 + 1) in
      subst
        (λ v.
          Holds (perform tick next v).probe (q ++ take (1024 - length q) (e ∷ es))
            (dropped + (suc (length es) - (1024 - length q))))
        (sym (measure-after tick node_id body w h.on h.level (omega arith)))
        (elim (ℕ_discrete (length q) 1024) [
          | yes full ↦
              let none_left : 1024 - length q ≡ 0 = omega arith in
              Holds-same (perform tick next (after tick node_id w)).probe _ _ _ _
                (ap (λ k. q ++ take k es) none_left
                  ∙ sym (ap (λ k. q ++ take k (e ∷ es)) none_left))
                (omega arith)
                (perform-Holds next (after tick node_id w) q (suc dropped)
                  (after-Holds_full node_id w q dropped h full) (omega arith))
          | no ne ↦
              let room : length q < 1024 = omega (arith, h.ring.room) in
              let more : length (q ++ (e ∷ [])) ≡ length q + 1 = length-append q (e ∷ []) in
              let one_less : 1024 - length q ≡ suc (1024 - length (q ++ (e ∷ []))) = omega arith in
              Holds-same (perform tick next (after tick node_id w)).probe _ _ _ _
                (append_assoc q (e ∷ []) (take (1024 - length (q ++ (e ∷ []))) es)
                  ∙ sym (ap (λ k. q ++ take k (e ∷ es)) one_less))
                (omega arith)
                (perform-Holds next (after tick node_id w) (q ++ (e ∷ [])) dropped
                  (after-Holds_room node_id w q dropped h room) (omega arith))
        ])

  -- A new probe that is switched on measures code: the records that come out are those of the
  -- first 1024 outermost measurements, in order, each between two readings of the clock; the rest
  -- are counted modulo 2^32; and the depth is 0 again. This holds for code nested less than 2^32
  -- deep. Code that runs while the probe is off changes nothing.
  pub measured :
      (c : Code)
      → depth c < u32_mod
      → (p : PerformanceProbe) × (p' : PerformanceProbe) × (new ≡ some p)
        × (let w = perform tick c (record { probe = set_enabled p true; readings = 0 }) in
            (drain w.probe ≡ some (take 1024 (entries tick c 0), p'))
            × (w.probe.nesting_depth ≡ 0)
            × (w.probe.overflow_counter ≡ (length (entries tick c 0) - 1024) % u32_mod))
        × (perform tick c (record { probe = p; readings = 0 }) ≡ record { probe = p; readings = 0 })
  unfolding new drain set_enabled
  measured c small =
      let p : PerformanceProbe = record {
        ring = fresh;
        enabled = false;
        nesting_depth = 0;
        overflow_counter = 0;
      } in
      let w : World = record { probe = set_enabled p true; readings = 0 } in
      let h =
        perform-Holds c w [] 0
          (record { on = refl; level = refl; ring = fresh-Models capacity; counter = refl })
          small in
      let (ring, e, m, s) =
        pop_each-Models (Spsc.len (perform tick c w).probe.ring + 1) (perform tick c w).probe.ring
          (take 1024 (entries tick c 0)) 0 capacity h.ring (inl (dvd_of_mod-eq-zero 1024 refl))
          (omega (
            arith,
            len-Models (perform tick c w).probe.ring (take 1024 (entries tick c 0)) capacity h.ring,
          )) in
      (
        p,
        record ((perform tick c w).probe) { ring = ring },
        rw (new-fresh capacity),
        (rw e, h.level, h.counter ∙ ap (λ k. k % u32_mod) (omega arith)),
        perform_disabled tick c (record { probe = p; readings = 0 }) refl,
      )
