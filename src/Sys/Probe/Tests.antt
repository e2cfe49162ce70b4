-- ===== src/Sys/Probe/Tests.antt =====
-- A run of the probe, and its theorem at concrete code. The clock counts its readings in tens.
use blockcat.Prelude.{
  ℕ, ◌-◌, ◌*◌, ◌%◌, ◌≡◌, refl, arith, true, some, [], ◌∷◌, length, take, u32_mod,
}
use blockcat.Sys.Probe.{PerformanceProbe, new, set_enabled, drain}
use blockcat.Sys.Probe.Nested.{Code, done, measures, depth, perform, entries}
use blockcat.Sys.Probe.Recorded.{measured}

abbrev tens : ℕ → ℕ
tens i = i * 10

-- Node 1 measures node 2 inside; node 3 follows.
abbrev code : Code
code = measures 1 (measures 2 done done) (measures 3 done done)

entries-code :
    entries tens code 0
    ≡ record { node_id = 1; start_tick = 0; end_tick = 10 }
      ∷ record { node_id = 3; start_tick = 20; end_tick = 30 }
      ∷ []
unfolding entries
entries-code = refl

depth-code : depth code ≡ 2
unfolding depth
depth-code = refl

measured_example :
    (p : PerformanceProbe) × (p' : PerformanceProbe) × (new ≡ some p)
    × (let w = perform tens code (record { probe = set_enabled p true; readings = 0 }) in
        (drain w.probe ≡ some (take 1024 (entries tens code 0), p'))
        × (w.probe.nesting_depth ≡ 0)
        × (w.probe.overflow_counter ≡ (length (entries tens code 0) - 1024) % u32_mod))
    × (perform tens code (record { probe = p; readings = 0 }) ≡ record { probe = p; readings = 0 })
measured_example = measured tens code (omega (arith, depth-code))
