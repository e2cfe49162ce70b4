-- ===== src/Sys/Fpu/Tests.antt =====
-- A scope within a scope, and the theorem on the guard there. 0x1f80 is the register of a new thread.
use blockcat.Prelude.{◌≡◌, refl, false, [], ◌∷◌, map}
use blockcat.Sys.Fpu.{x86_64, set_bit, enable, new, new_x86_64, drop}
use blockcat.Sys.Fpu.Nested.{
  Code, ends, computes, guarded, run, in_force, setting, Flushes, guards_nest,
}

abbrev nested : Code
nested = computes (guarded (guarded (computes ends) (computes ends)) (computes ends))

run-nested : run x86_64 nested 0x1f80 ≡ (0x1f80 ∷ 0x9fc0 ∷ 0x9fc0 ∷ 0x1f80 ∷ [], 0x1f80)
unfolding run new new_x86_64 drop enable set_bit
run-nested = refl

guards_nest_example :
    (run x86_64 nested 0x1f80 ≡ (map (setting x86_64 0x1f80) (in_force false nested), 0x1f80))
    × Flushes x86_64 (enable x86_64 0x1f80)
guards_nest_example = guards_nest x86_64 nested 0x1f80
