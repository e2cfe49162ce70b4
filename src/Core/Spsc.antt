-- ===== src/Core/Spsc.antt =====
-- crates/riaps-core/src/spsc.rs: the single-producer single-consumer ring, one call at a time. The
-- producer and consumer handles are references to the ring, so their methods take the ring and
-- return it. The cache-line padding of `head` and `tail` is layout only.
mod Layout
pub mod Models
mod Batch
pub mod Calls
pub mod Steps
pub mod Drain
pub mod Refine
pub mod Wrap
pub mod Atomic
mod Tests
use blockcat.Prelude.{
  ℕ, zero, suc, ◌+◌, ◌-◌, ◌%◌, min, Bool, Option, none, some, List, [], ◌∷◌, Result, ok, err, ◌==◌,
  ltb, if◌then◌else◌, get_elem?, set, replicate, wrapping_add, wrapping_sub,
}

pub data SpscError : Type 0 where
  full : SpscError
  empty : SpscError
  insufficient_data : SpscError

-- `SpscRing<T, N>`: a slot is `none` while it holds no value (`MaybeUninit::uninit`, or moved out).
pub record SpscRing {ℓ} (A : Type ℓ) (n : ℕ) : Type ℓ where
  pub head : ℕ
  pub tail : ℕ
  pub buf : List (Option A)

module _ {ℓ} {A : Type ℓ} where
  -- `none` where the assertion on the capacity panics.
  pub new : (n : ℕ) → Option (SpscRing A n)
  new n = if n == 0 then none else some (record { head = 0; tail = 0; buf = replicate n none })

  -- The item in a slot, moved out or copied; `none` if the slot is uninitialised, or out of range.
  unfoldable pub read_slot : List (Option A) → ℕ → Option A
  read_slot buf i = elim (get_elem? buf i) [ none ↦ none | some o ↦ o ]

  -- The loop of `drop`, on fuel: the values that are dropped, in order. `none` is undefined
  -- behaviour or the end of the fuel.
  pub drop_from : (n : ℕ) → ℕ → List (Option A) → ℕ → ℕ → Option (List A)
  drop_from n zero buf i tail = none
  drop_from n (suc fuel) buf i tail =
      let rest = drop_from n fuel buf (wrapping_add i 1) tail in
      if i == tail then some [] else elim (read_slot buf (i % n)) [
        | none ↦ none
        | some v ↦ elim rest [ none ↦ none | some vs ↦ some (v ∷ vs) ]
      ]

module _ {ℓ} {A : Type ℓ} {n : ℕ} where
  pub len : SpscRing A n → ℕ
  len r = wrapping_sub r.tail r.head

  pub is_empty : SpscRing A n → Bool
  is_empty r = len r == 0

  pub capacity_left : SpscRing A n → ℕ
  capacity_left r = n - min (len r) n

  -- A full ring hands the value back.
  pub push : SpscRing A n → A → Result (Unit {0}) A × SpscRing A n
  push r value = if wrapping_sub r.tail r.head == n then (err value, r) else (
    ok tt,
    record r { buf = set r.buf (r.tail % n) (some value); tail = wrapping_add r.tail 1 },
  )

  -- `none` is undefined behaviour: `assume_init_read` of an uninitialised slot. The read moves the
  -- value out of its slot.
  pub pop : SpscRing A n → Option (Option A × SpscRing A n)
  unfolding read_slot
  pop r = if r.tail == r.head then some (none, r) else elim (read_slot r.buf (r.head % n)) [
    | none ↦ none
    | some value ↦
        some
          (some value, record r { buf = set r.buf (r.head % n) none; head = wrapping_add r.head 1 })
  ]

  -- The loop of `pop_slice_copy`: `m` slots are left to fill, the next one is number `i`.
  pub read_slots : SpscRing A n → ℕ → ℕ → Option (List A)
  read_slots r zero i = some []
  read_slots r (suc m) i = elim (read_slot r.buf (wrapping_add r.head i % n)) [
    | none ↦ none
    | some v ↦ elim (read_slots r m (i + 1)) [ none ↦ none | some vs ↦ some (v ∷ vs) ]
  ]

  -- `m` is the const generic `M`. The values are copied, so their slots keep them.
  pub pop_slice_copy : SpscRing A n → ℕ → Option (Result (List A) SpscError × SpscRing A n)
  unfolding read_slots
  pop_slice_copy r m =
      if ltb (wrapping_sub r.tail r.head) m
      then some (err insufficient_data, r)
      else elim (read_slots r m 0) [
        | none ↦ none
        | some vs ↦ some (ok vs, record r { head = wrapping_add r.head m })
      ]

  -- `Drop for SpscRing`. The loop makes `len r` rounds before its test fails.
  pub drop_ring : SpscRing A n → Option (List A)
  unfolding drop_from
  drop_ring r = drop_from n (len r + 1) r.buf r.head r.tail
