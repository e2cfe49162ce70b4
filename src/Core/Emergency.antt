-- ===== src/Core/Emergency.antt =====
-- `EmergencySlot` of crates/riaps-core/src/memory.rs, as interleaved atomic steps of one writer and
-- one reader, sequentially consistent. An object is its address; `V` is the type of its table. The
-- last two fields of a slot record what was pushed and drained, and no step reads them.
mod Invariant
pub mod Safety
mod Tests
use blockcat.Prelude.{ℕ, ◌≡◌, Bool, true, false, Option, none, some, List, [], ◌∷◌, ◌++◌}

-- Where the writer stands in `push`: it has found the slot vacant, written the table, set the flag.
pub data Writer {ℓ} (V : Type ℓ) : Type ℓ where
  resting : Writer V
  chosen : (obj : ℕ) (v : V) → Writer V
  written : (obj : ℕ) (v : V) → Writer V
  flagged : (obj : ℕ) (v : V) → Writer V

-- Where the reader stands in `drain`: it has loaded the pointer, seen the flag, read the table,
-- cleared the flag.
pub data Reader {ℓ} (V : Type ℓ) : Type ℓ where
  waiting : Reader V
  seen : (p : ℕ) → Reader V
  confirmed : (p : ℕ) → Reader V
  copied : (p : ℕ) (v : V) → Reader V
  cleared : (p : ℕ) (v : V) → Reader V

-- The pointer is `none` while it is null, the table `none` while it is not written.
pub record EmergencySlot {ℓ} (V : Type ℓ) : Type ℓ where
  pub ptr : Option ℕ
  pub vtable : Option V
  pub vtable_ready : Bool
  pub writer : Writer V
  pub reader : Reader V
  pub pushed : List (ℕ × V)
  pub drained : List (ℕ × V)

module _ {ℓ} {V : Type ℓ} where
  pub new : EmergencySlot V
  new = record {
    ptr = none;
    vtable = none;
    vtable_ready = false;
    writer = resting;
    reader = waiting;
    pushed = [];
    drained = [];
  }

  pub data Step (s : EmergencySlot V) : EmergencySlot V → Type ℓ where
    -- `push`: it returns false where the slot is not vacant.
    refuse : (p : ℕ) → s.writer ≡ resting → s.ptr ≡ some p → Step s s
    choose :
        (obj : ℕ) (v : V)
        → s.writer ≡ resting
        → s.ptr ≡ none
        → Step s (record s { writer = chosen obj v })
    write :
        (obj : ℕ) (v : V)
        → s.writer ≡ chosen obj v
        → Step s (record s { vtable = some v; writer = written obj v })
    flag :
        (obj : ℕ) (v : V)
        → s.writer ≡ written obj v
        → Step s (record s { vtable_ready = true; writer = flagged obj v })
    publish :
        (obj : ℕ) (v : V)
        → s.writer ≡ flagged obj v
        → Step s
            (record s { ptr = some obj; writer = resting; pushed = s.pushed ++ ((obj, v) ∷ []) })
    -- `drain`: it returns `None` where the pointer is null or the flag is not set.
    nothing : s.reader ≡ waiting → s.ptr ≡ none → Step s s
    see : (p : ℕ) → s.reader ≡ waiting → s.ptr ≡ some p → Step s (record s { reader = seen p })
    too_early :
        (p : ℕ)
        → s.reader ≡ seen p
        → s.vtable_ready ≡ false
        → Step s (record s { reader = waiting })
    confirm :
        (p : ℕ)
        → s.reader ≡ seen p
        → s.vtable_ready ≡ true
        → Step s (record s { reader = confirmed p })
    copy :
        (p : ℕ) (v : V)
        → s.reader ≡ confirmed p
        → s.vtable ≡ some v
        → Step s (record s { reader = copied p v })
    clear :
        (p : ℕ) (v : V)
        → s.reader ≡ copied p v
        → Step s (record s { vtable_ready = false; reader = cleared p v })
    release :
        (p : ℕ) (v : V)
        → s.reader ≡ cleared p v
        → Step s (record s { ptr = none; reader = waiting; drained = s.drained ++ ((p, v) ∷ []) })

  pub data Reachable : EmergencySlot V → Type ℓ where
    start : Reachable new
    next : (s s' : EmergencySlot V) → Reachable s → Step s s' → Reachable s'
