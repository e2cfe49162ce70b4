-- ===== src/Core/Spsc/Wrap.antt =====
-- What happens in crates/riaps-core/src/spsc.rs when the index wraps and `N` does not divide 2^64:
-- the slots of the indices 2^64 - 1 and 0 are then not neighbours.
use native.Mathlib.Nat.{mod-lt, zero-mod}
use blockcat.Prelude.{
  sub-mod-mod, ℕ, ◌+◌, ◌%◌, ◌<◌, ◌≡◌, ◌≢◌, ◌∙◌, ap, arith, some, List, ◌∷◌, ok, length, get_elem?,
  get_elem?-set_self, set, usize_mod, wrapping_add,
}
use blockcat.Core.Spsc.{SpscRing, push, pop, read_slot}
use blockcat.Core.Spsc.Models.{IsCapacity, Models, after_push, push_ok, after_pop}

module _ {ℓ} {A : Type ℓ} {n : ℕ} where
  -- If the items reach up to index 2^64 - 1 and their number is the remainder of 2^64 by `n`,
  -- which is not 0, then the next push succeeds and destroys the oldest item `x`: the next pop
  -- returns the new value `v` in its place.
  pub wrap_overwrites :
      (r : SpscRing A n) (x : A) (q : List A) (v : A)
      → IsCapacity n
      → Models r (x ∷ q)
      → r.head + length (x ∷ q) ≡ usize_mod
      → length (x ∷ q) ≡ usize_mod % n
      → (r' : SpscRing A n) × (push r v ≡ (ok tt, r'))
        × (s : SpscRing A n) × (pop r' ≡ some (some v, s))
  unfolding pop read_slot
  wrap_overwrites r x q v c m top rest = (
    after_push r v,
    push_ok r (x ∷ q) v c m short,
    after_pop (after_push r v),
    ground (arith, more, newest),
  )
    where
      short : length (x ∷ q) < n
      short = omega (arith, mod-lt usize_mod c.positive)

      tail_zero : r.tail ≡ 0
      tail_zero = omega (arith, m.end)

      head_zero : r.head % n ≡ 0
      head_zero = ap (λ k. k % n) (omega arith) ∙ sub-mod-mod usize_mod n

      more : wrapping_add r.tail 1 ≢ r.head
      more = omega (arith, tail_zero, short)

      newest : get_elem? (set r.buf (r.tail % n) (some v)) (r.head % n) ≡ some (some v)
      newest =
          let same : r.tail % n ≡ r.head % n = omega (arith, tail_zero, head_zero, zero-mod n) in
          rw same (
            get_elem?-set_self r.buf (r.head % n) (some v)
              (omega (arith, head_zero, m.size, c.positive)))
