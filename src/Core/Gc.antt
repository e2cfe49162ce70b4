-- ===== src/Core/Gc.antt =====
-- crates/riaps-core/src/memory.rs: `DropVTable` and `GcContext`, the physical drop of objects behind
-- erased pointers. A Rust type is its destructor and its layout; the destructors act on a state `S`
-- of their own, which is apart from the blocks that the boxes themselves hold. A value is dropped in
-- a block that is not freed yet. `none` is undefined
-- behaviour, or a failed assertion.
pub mod Reclaim
mod Tests
use blockcat.Prelude.{
  ℕ, ◌+◌, ◌%◌, Bool, not, ◌&&◌, Option, none, some, ◌==◌, leb, if◌then◌else◌, ◌>>=◌, ◌>>◌, assert,
  usize_max,
}

-- `core::alloc::Layout`
pub record Layout : Type 0 where
  pub size : ℕ
  pub align : ℕ

pub record DropVTable {ℓ} (S : Type ℓ) : Type ℓ where
  pub drop_in_place : ℕ → S → S
  pub layout : Layout

-- What the code uses of a type: its destructor at an address, and `Layout::new`.
pub record Sort {ℓ} (S : Type ℓ) : Type ℓ where
  pub destroy : ℕ → S → S
  pub layout : Layout

-- A `Box`: the type of its value, and where the value stands.
pub record Box {ℓ} (S : Type ℓ) : Type ℓ where
  pub sort : Sort S
  pub address : ℕ

-- The blocks that the allocator has given out, and the state of the destructors.
pub record Heap {ℓ} (S : Type ℓ) : Type ℓ where
  pub blocks : ℕ → Option Layout
  pub state : S

pub record GcContext : Type 0 where
  pub reclaimed : ℕ

unfoldable pub new : GcContext
new = record { reclaimed = 0 }

-- The block at `ptr` is there, with this layout.
pub owns : (ℕ → Option Layout) → ℕ → Layout → Option (Unit {0})
owns blocks ptr layout = do
  block ← blocks ptr
  assert ((block.size == layout.size) && (block.align == layout.align))

-- `dealloc`
pub dealloc : (ℕ → Option Layout) → ℕ → Layout → Option (ℕ → Option Layout)
dealloc blocks ptr layout = do
  owns blocks ptr layout
  some (λ a. if a == ptr then none else blocks a)

-- `core::ptr::drop_in_place`: a value that is not of size 0 must stand in a block that is not freed.
pub drop_value {ℓ} : {S : Type ℓ} → (ℕ → Option Layout) → ℕ → DropVTable S → S → Option S
drop_value blocks ptr vtable state = do
  if vtable.layout.size == 0 then some tt else owns blocks ptr vtable.layout
  some (vtable.drop_in_place ptr state)

module _ {ℓ} {S : Type ℓ} where
  unfoldable pub of : Sort S → DropVTable S
  of sort = record { drop_in_place = sort.destroy; layout = sort.layout }

  -- `Box::into_raw` is the address.
  unfoldable pub defer_box : Box S → ℕ × DropVTable S
  defer_box value = (value.address, of value.sort)

  -- `self.reclaimed += 1` is checked.
  unfoldable pub drop_and_dealloc :
      GcContext → ℕ → DropVTable S → Heap S → Option (GcContext × Heap S)
  unfolding dealloc drop_value owns
  drop_and_dealloc gc ptr vtable heap = do
    assert (not (ptr == 0))
    assert (ptr % vtable.layout.align == 0)
    state ← drop_value heap.blocks ptr vtable heap.state
    blocks ←
        (if vtable.layout.size == 0
          then some heap.blocks
          else dealloc heap.blocks ptr vtable.layout)
    assert (leb (gc.reclaimed + 1) usize_max)
    some (record { reclaimed = gc.reclaimed + 1 }, record { blocks = blocks; state = state })
