-- ===== src/Core/Spsc/Layout.antt =====
-- Where the items of a ring stand: item `i` behind index `head` is in slot `(head + i) % N`, the
-- sum wrapped to a machine word first.
use native.Mathlib.Nat.{mod-mod_of_dvd}
use Prim.Native.Nat.{◌∣◌}
use blockcat.Prelude.{
  add-mod-ne, ℕ, suc, ◌+◌, ◌-◌, ◌%◌, ◌<◌, ◌≡◌, ◌≢◌, ◌∙◌, sym, ap, arith, usize_mod, wrapping_add,
}

abbrev pub slot : ℕ → ℕ → ℕ → ℕ
slot n head i = wrapping_add head i % n

-- Where the capacity divides the modulus of the index, the wrap does not show in the slot.
pub slot_of_dvd : (n head i : ℕ) → n ∣ usize_mod → slot n head i ≡ (head + i) % n
slot_of_dvd n head i d = mod-mod_of_dvd n (head + i) d

-- Fewer than `n` steps never come back to the same slot.
pub slot-ne_of_dvd :
    (n head i j : ℕ) → n ∣ usize_mod → i < j → j < n + i → slot n head j ≢ slot n head i
slot-ne_of_dvd n head i j d lt near e =
    add-mod-ne n (head + i) (j - i) (omega arith) (omega arith)
      (ap (λ k. k % n) (omega arith) ∙ sym (slot_of_dvd n head j d) ∙ e ∙ slot_of_dvd n head i d)

pub slot-suc : (n head i : ℕ) → slot n head (suc i) ≡ slot n (wrapping_add head 1) i
slot-suc n head i = ap (λ k. k % n) (omega arith)
