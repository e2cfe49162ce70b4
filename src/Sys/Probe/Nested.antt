-- ===== src/Sys/Probe/Nested.antt =====
-- Nested measurements with crates/riaps-sys/src/probe.rs: only the outermost ones are recorded.

use blockcat.Prelude.{
  ℕ, suc, ◌+◌, max, ◌<◌, ◌≡◌, ◌∙◌, refl, ap, arith, true, false, not, List, [], ◌∷◌, ltb,
  if◌then◌else◌, u32_add, u32_sub, u32_mod,
}
use blockcat.Core.Spsc
use blockcat.Sys.Probe.{ProbeRecord, World, leave, enter, inner, settle, finish, outermost, measure}

-- Code on the audio thread, as far as it measures: nothing, or a measurement of some code, and then
-- more code.
pub data Code : Type 0 where
  done : Code
  measures : (node_id : ℕ) (body next : Code) → Code

-- How deep the measurements are nested.
unfoldable pub depth : Code → ℕ
depth done = 0
depth (measures node_id body next) = max (suc (depth body)) (depth next)

module _ (tick : ℕ → ℕ) where
  unfoldable pub perform : Code → World → World
  perform done w = w
  perform (measures node_id body next) w = perform next (measure tick node_id (perform body) w)

  -- The records of the outermost measurements, where the clock was read `r` times before: each takes
  -- two readings, and the nested ones take none.
  unfoldable pub entries : Code → ℕ → List ProbeRecord
  entries done r = []
  entries (measures node_id body next) r =
      record { node_id = node_id; start_tick = tick r; end_tick = tick (r + 1) }
      ∷ entries next (r + 1 + 1)

  leave_enter : (k : ℕ) → k + 1 < u32_mod → u32_sub (u32_add k 1) 1 ≡ k
  leave_enter k small = omega arith

  module _ (node_id : ℕ) (f : World → World) (w : World) where
    measure_off : w.probe.enabled ≡ false → measure tick node_id f w ≡ f w
    unfolding measure
    measure_off e =
        ap
          (λ b.
            if not b
            then f w
            else if ltb 0 w.probe.nesting_depth
            then inner f w
            else outermost tick node_id f (enter w))
          e

    measure_on :
        w.probe.enabled ≡ true
        → measure tick node_id f w
          ≡ (if ltb 0 w.probe.nesting_depth then inner f w else outermost tick node_id f (enter w))
    unfolding measure
    measure_on e =
        ap
          (λ b.
            if not b
            then f w
            else if ltb 0 w.probe.nesting_depth
            then inner f w
            else outermost tick node_id f (enter w))
          e

    measure_inside :
        w.probe.enabled ≡ true → 0 < w.probe.nesting_depth → measure tick node_id f w ≡ inner f w
    measure_inside e pos =
        let nested : ltb 0 w.probe.nesting_depth ≡ true = ground arith in
        measure_on e ∙ ap (λ b. if b then inner f w else outermost tick node_id f (enter w)) nested

    measure_outside :
        w.probe.enabled ≡ true
        → w.probe.nesting_depth ≡ 0
        → measure tick node_id f w ≡ outermost tick node_id f (enter w)
    measure_outside e zero_deep =
        let first : ltb 0 w.probe.nesting_depth ≡ false = ground arith in
        measure_on e ∙ ap (λ b. if b then inner f w else outermost tick node_id f (enter w)) first

  abbrev at_depth : World → ℕ → World
  at_depth w k = record w { probe = record (w.probe) { nesting_depth = k } }

  abbrev closed : World → World
  closed w = record w { probe = leave w.probe }

  -- Inside a measurement, code changes nothing.
  perform_inside :
      (c : Code) (w : World)
      → w.probe.enabled ≡ true
      → 0 < w.probe.nesting_depth
      → w.probe.nesting_depth + depth c < u32_mod
      → perform c w ≡ w
  unfolding perform depth
  perform_inside done w on pos small = refl
  perform_inside (measures node_id body next) w on pos small =
      let k : ℕ = w.probe.nesting_depth in
      let level : at_depth w (u32_sub (u32_add k 1) 1) ≡ w =
        ap (at_depth w) (leave_enter k (omega arith)) in
      let once : measure tick node_id (perform body) w ≡ w =
        measure_inside node_id (perform body) w on pos
        ∙ ap closed (perform_inside body (enter w) on (omega arith) (omega arith))
        ∙ level in
      ap (perform next) once ∙ perform_inside next w on pos (omega arith)

  -- Code changes nothing while the probe is disabled.
  pub perform_disabled : (c : Code) (w : World) → w.probe.enabled ≡ false → perform c w ≡ w
  unfolding perform
  perform_disabled done w off = refl
  perform_disabled (measures node_id body next) w off =
      ap (perform next) (measure_off node_id (perform body) w off ∙ perform_disabled body w off)
      ∙ perform_disabled next w off

  abbrev pub entry : ℕ → ℕ → ProbeRecord
  entry node_id r = record { node_id = node_id; start_tick = tick r; end_tick = tick (r + 1) }

  -- What one outermost measurement of code leaves.
  abbrev pub after : ℕ → World → World
  after node_id w = record {
    probe = leave (settle (enter w).probe (Spsc.push w.probe.ring (entry node_id w.readings)));
    readings = w.readings + 1 + 1;
  }

  pub measure-after :
      (node_id : ℕ) (body : Code) (w : World)
      → w.probe.enabled ≡ true
      → w.probe.nesting_depth ≡ 0
      → depth body + 1 < u32_mod
      → measure tick node_id (perform body) w ≡ after node_id w
  unfolding outermost
  measure-after node_id body w on level small =
      measure_outside node_id (perform body) w on level
      ∙ ap (finish tick node_id (tick w.readings)) (
          perform_inside body (record (enter w) { readings = w.readings + 1 }) on (omega arith)
            (omega arith))
