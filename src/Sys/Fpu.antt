-- ===== src/Sys/Fpu.antt =====
-- crates/riaps-sys/src/fpu.rs: the guard that lets the processor flush subnormal numbers to zero. The
-- control register (MXCSR, or FPCR) is a number that the guard reads and writes.
pub mod Nested
mod Tests
use blockcat.Prelude.{ℕ, ◌+◌, ◌/◌, ◌%◌, ◌^◌, ◌==◌, if◌then◌else◌}

-- `target_arch`
pub data Target : Type 0 where
  x86_64 : Target
  aarch64 : Target
  other : Target

abbrev pub bit : ℕ → ℕ → ℕ
bit k v = v / 2 ^ k % 2

-- `v | (1 << k)`
pub set_bit : ℕ → ℕ → ℕ
set_bit k v = if bit k v == 1 then v else v + 2 ^ k

abbrev pub ftz_bit : ℕ
ftz_bit = 15

abbrev pub daz_bit : ℕ
daz_bit = 6

abbrev pub fz_bit : ℕ
fz_bit = 24

-- The value that the guard writes.
pub enable : Target → ℕ → ℕ
enable x86_64 v = set_bit daz_bit (set_bit ftz_bit v)
enable aarch64 v = set_bit fz_bit v
enable other v = v

pub data FpuGuard : Type 0 where
  mxcsr_old : ℕ → FpuGuard
  fpcr_old : ℕ → FpuGuard
  no_op : FpuGuard

-- The guard, and the register.
pub new_x86_64 : ℕ → FpuGuard × ℕ
new_x86_64 register = (mxcsr_old register, enable x86_64 register)

pub new_aarch64 : ℕ → FpuGuard × ℕ
new_aarch64 register = (fpcr_old register, enable aarch64 register)

pub new : Target → ℕ → FpuGuard × ℕ
new x86_64 register = new_x86_64 register
new aarch64 register = new_aarch64 register
new other register = (no_op, register)

pub drop : FpuGuard → ℕ → ℕ
drop (mxcsr_old old) register = old
drop (fpcr_old old) register = old
drop no_op register = register
