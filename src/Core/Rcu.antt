-- ===== src/Core/Rcu.antt =====
-- crates/riaps-core/src/rcu.rs: `RcuHandle`, with the two atomic operations of every `swap` as steps
-- of any number of threads, sequentially consistent. A pointer is its address, 0 is null. The fields
-- `published` and `returned` record what was stored and given back, and no step reads them.
pub mod Exchange
mod Tests
use blockcat.Prelude.{ℕ, ◌≡◌, ◌≢◌, List, [], ◌∷◌, ◌++◌, wrapping_add}

-- `swapping` are the calls of `swap` that have exchanged the pointer, each with its local `old`.
pub record RcuHandle : Type 0 where
  pub current : ℕ
  pub version : ℕ
  pub swapping : List ℕ
  pub published : List ℕ
  pub returned : List ℕ

unfoldable pub empty : RcuHandle
empty = record { current = 0; version = 0; swapping = []; published = 0 ∷ []; returned = [] }

unfoldable pub new : ℕ → RcuHandle
new initial = record {
  current = initial;
  version = 1;
  swapping = [];
  published = initial ∷ [];
  returned = [];
}

unfoldable pub load : RcuHandle → ℕ
load s = s.current

pub data Step (s : RcuHandle) : RcuHandle → Type 0 where
  -- `swap`: the exchange, after the assertion that the new pointer is not null.
  exchange :
      (new_ptr : ℕ)
      → new_ptr ≢ 0
      → Step s (record s {
        current = new_ptr;
        swapping = s.current ∷ s.swapping;
        published = new_ptr ∷ s.published;
      })
  -- `swap`: the version is counted, and the old pointer returned.
  count_version :
      (before : List ℕ) (old : ℕ) (after : List ℕ)
      → s.swapping ≡ before ++ (old ∷ after)
      → Step s (record s {
        version = wrapping_add s.version 1;
        swapping = before ++ after;
        returned = old ∷ s.returned;
      })

-- The states that a handle in the state `first` can come to.
pub data Reachable (first : RcuHandle) : RcuHandle → Type 0 where
  start : Reachable first first
  next : (s s' : RcuHandle) → Reachable first s → Step s s' → Reachable first s'
