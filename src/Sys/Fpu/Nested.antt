-- ===== src/Sys/Fpu/Nested.antt =====
-- Guards of crates/riaps-sys/src/fpu.rs in scopes within scopes.
use mathlib.Core.List.{map-append}
use blockcat.Prelude.{
  ℕ, ◌+◌, ◌/◌, ◌%◌, ◌≡◌, ◌≢◌, ◌∙◌, refl, sym, ap, arith, ℕ_discrete, Bool, true, false, List, [],
  ◌∷◌, ◌++◌, map, ◌==◌, if◌then◌else◌,
}
use blockcat.Sys.Fpu.{
  Target, x86_64, aarch64, other, bit, set_bit, ftz_bit, daz_bit, fz_bit, enable, new, new_x86_64,
  new_aarch64, drop,
}

-- Code that computes, and opens scopes that a guard is in force in. A computation leaves the control
-- register alone: the status flags of MXCSR are not modelled.
pub data Code : Type 0 where
  ends : Code
  computes : Code → Code
  guarded : (scope rest : Code) → Code

-- The register at every computation, and at the end.
unfoldable pub run : Target → Code → ℕ → List ℕ × ℕ
run target ends register = ([], register)
run target (computes rest) register =
    let (seen, register') = run target rest register in (register ∷ seen, register')
run target (guarded scope rest) register =
    let (guard, entered) = new target register in
    let (seen, left) = run target scope entered in
    let (seen', register') = run target rest (drop guard left) in (seen ++ seen', register')

-- Whether a guard is in force at each computation.
unfoldable pub in_force : Bool → Code → List Bool
in_force on ends = []
in_force on (computes rest) = on ∷ in_force on rest
in_force on (guarded scope rest) = in_force true scope ++ in_force on rest

set_bit-same : (k v : ℕ) → bit k v ≡ 1 → set_bit k v ≡ v
unfolding set_bit
set_bit-same k v e = let on : (bit k v == 1) ≡ true = ground arith in rw on refl

bit-ftz : (v : ℕ) → bit ftz_bit (set_bit ftz_bit v) ≡ 1
unfolding set_bit
bit-ftz v = ground arith

bit-daz : (v : ℕ) → bit daz_bit (set_bit daz_bit v) ≡ 1
unfolding set_bit
bit-daz v = ground arith

bit-fz : (v : ℕ) → bit fz_bit (set_bit fz_bit v) ≡ 1
unfolding set_bit
bit-fz v = ground arith

-- Bit 6 carries nothing over to bit 15.
no_carry : (v : ℕ) → v / 64 % 2 ≢ 1 → (v + 64) / 32768 ≡ v / 32768
no_carry v off = omega (arith, off)

ftz-daz : (v : ℕ) → bit ftz_bit v ≡ 1 → bit ftz_bit (set_bit daz_bit v) ≡ 1
unfolding set_bit
ftz-daz v e = elim (ℕ_discrete (v / 64 % 2) 1) [
  | yes on ↦ let t : (v / 64 % 2 == 1) ≡ true = ground arith in rw t e
  | no off ↦
      let t : (v / 64 % 2 == 1) ≡ false = ground arith in
      rw t (ap (λ k. k % 2) (no_carry v off) ∙ e)
]

enable-twice : (target : Target) (v : ℕ) → enable target (enable target v) ≡ enable target v
unfolding enable
enable-twice x86_64 v =
    let w = set_bit daz_bit (set_bit ftz_bit v) in
    ap (set_bit daz_bit) (set_bit-same ftz_bit w (ftz-daz (set_bit ftz_bit v) (bit-ftz v)))
    ∙ set_bit-same daz_bit w (bit-daz (set_bit ftz_bit v))
enable-twice aarch64 v = set_bit-same fz_bit (set_bit fz_bit v) (bit-fz v)
enable-twice other v = refl

-- The bits that the guard is for.
pub Flushes : Target → ℕ → Type 0
Flushes x86_64 v = (bit ftz_bit v ≡ 1) × (bit daz_bit v ≡ 1)
Flushes aarch64 v = bit fz_bit v ≡ 1
Flushes other v = Unit

enable-Flushes : (target : Target) (v : ℕ) → Flushes target (enable target v)
unfolding enable Flushes
enable-Flushes x86_64 v = (ftz-daz (set_bit ftz_bit v) (bit-ftz v), bit-daz (set_bit ftz_bit v))
enable-Flushes aarch64 v = bit-fz v
enable-Flushes other v = tt

-- What the guard leaves in the register, and the register after its drop.
new-enable : (target : Target) (v : ℕ) → (new target v).1 ≡ enable target v
unfolding new new_x86_64 new_aarch64 enable
new-enable x86_64 v = refl
new-enable aarch64 v = refl
new-enable other v = refl

drop-new : (target : Target) (v : ℕ) → drop (new target v).0 (enable target v) ≡ v
unfolding new new_x86_64 new_aarch64 drop enable
drop-new x86_64 v = refl
drop-new aarch64 v = refl
drop-new other v = refl

-- The register at a computation, by whether a guard is in force.
abbrev pub setting : Target → ℕ → Bool → ℕ
setting target register on = if on then enable target register else register

enable-setting :
    (target : Target) (v : ℕ) (on : Bool) → enable target (setting target v on) ≡ enable target v
enable-setting target v true = enable-twice target v
enable-setting target v false = refl

-- A scope that starts with the register at `setting target v on` leaves it so.
run-setting :
    (target : Target) (code : Code) (v : ℕ) (on : Bool)
    → run target code (setting target v on)
      ≡ (map (setting target v) (in_force on code), setting target v on)
unfolding run in_force
run-setting target ends v on = refl
run-setting target (computes rest) v on =
    ap (λ r. (setting target v on ∷ r.0, r.1)) (run-setting target rest v on)
run-setting target (guarded scope rest) v on =
    let w = setting target v on in
    let inner : run target scope (new target w).1
        ≡ (map (setting target v) (in_force true scope), enable target v) =
      ap (run target scope) (new-enable target w ∙ enable-setting target v on)
      ∙ run-setting target scope v true in
    let back : drop (new target w).0 (enable target v) ≡ w =
      ap (drop (new target w).0) (sym (enable-setting target v on)) ∙ drop-new target w in
    rw (inner, back, run-setting target rest v on)
      (ap (λ xs. (xs, w))
        (sym (map-append (setting target v) (in_force true scope) (in_force on rest))))

-- Whatever the scopes with a guard that are opened, one within another or one after another: a
-- computation under no guard finds the register as it was, a computation under one guard or more
-- finds it with the flush bits set, and after all scopes it is as it was. The bits are FTZ and DAZ on
-- x86_64, and FZ on aarch64; elsewhere the guard does nothing.
pub guards_nest :
    (target : Target) (code : Code) (v : ℕ)
    → (run target code v ≡ (map (setting target v) (in_force false code), v))
      × Flushes target (enable target v)
guards_nest target code v = (run-setting target code v false, enable-Flushes target v)
