-- ===== src/Core/Spsc/Atomic.antt =====
-- crates/riaps-core/src/spsc.rs: one producer and one consumer at the same time. `push` and `pop` are
-- cut into their loads, their access to a slot and their store, in any order between the two threads,
-- sequentially consistent. The fields `pushed` and `popped` record what the calls that are over have
-- done, and no step reads them.
mod Invariant
mod Moves
mod Takes
mod Turns
pub mod Safety
pub mod Progress
mod Tests
use blockcat.Prelude.{
  ℕ, ◌%◌, ◌≡◌, ◌≢◌, Option, none, some, List, [], ◌∷◌, ◌++◌, set, wrapping_add, wrapping_sub,
}
use blockcat.Core.Spsc.{SpscRing, read_slot}

-- Where the producer stands in `push`, with its local variables.
pub data Producer {ℓ} (A : Type ℓ) : Type ℓ where
  calm : Producer A
  has_tail : (value : A) (tail : ℕ) → Producer A
  has_head : (value : A) (tail head : ℕ) → Producer A
  has_written : (value : A) (tail : ℕ) → Producer A

-- Where the consumer stands in `pop`.
pub data Consumer {ℓ} (A : Type ℓ) : Type ℓ where
  quiet : Consumer A
  saw_head : (head : ℕ) → Consumer A
  saw_tail : (head tail : ℕ) → Consumer A
  has_taken : (head : ℕ) (value : A) → Consumer A

pub record Shared {ℓ} (A : Type ℓ) (n : ℕ) : Type ℓ where
  pub ring : SpscRing A n
  pub producer : Producer A
  pub consumer : Consumer A
  pub pushed : List A
  pub popped : List A

module _ {ℓ} {A : Type ℓ} {n : ℕ} where
  pub data Step (s : Shared A n) : Shared A n → Type ℓ where
    -- `push`
    load_tail :
        (value : A)
        → s.producer ≡ calm
        → Step s (record s { producer = has_tail value s.ring.tail })
    load_head :
        (value : A) (tail : ℕ)
        → s.producer ≡ has_tail value tail
        → Step s (record s { producer = has_head value tail s.ring.head })
    refuse :
        (value : A) (tail head : ℕ)
        → s.producer ≡ has_head value tail head
        → wrapping_sub tail head ≡ n
        → Step s (record s { producer = calm })
    write :
        (value : A) (tail head : ℕ)
        → s.producer ≡ has_head value tail head
        → wrapping_sub tail head ≢ n
        → Step s (record s {
          ring = record s.ring { buf = set s.ring.buf (tail % n) (some value) };
          producer = has_written value tail;
        })
    store_tail :
        (value : A) (tail : ℕ)
        → s.producer ≡ has_written value tail
        → Step s (record s {
          ring = record s.ring { tail = wrapping_add tail 1 };
          producer = calm;
          pushed = s.pushed ++ (value ∷ []);
        })
    -- `pop`
    see_head : s.consumer ≡ quiet → Step s (record s { consumer = saw_head s.ring.head })
    see_tail :
        (head : ℕ)
        → s.consumer ≡ saw_head head
        → Step s (record s { consumer = saw_tail head s.ring.tail })
    give_up :
        (head tail : ℕ)
        → s.consumer ≡ saw_tail head tail
        → tail ≡ head
        → Step s (record s { consumer = quiet })
    read :
        (head tail : ℕ) (value : A)
        → s.consumer ≡ saw_tail head tail
        → tail ≢ head
        → read_slot s.ring.buf (head % n) ≡ some value
        → Step s (record s {
          ring = record s.ring { buf = set s.ring.buf (head % n) none };
          consumer = has_taken head value;
        })
    store_head :
        (head : ℕ) (value : A)
        → s.consumer ≡ has_taken head value
        → Step s (record s {
          ring = record s.ring { head = wrapping_add head 1 };
          consumer = quiet;
          popped = s.popped ++ (value ∷ []);
        })

  abbrev pub at_rest : SpscRing A n → Shared A n
  at_rest ring = record { ring = ring; producer = calm; consumer = quiet; pushed = []; popped = [] }

  -- The states that a ring comes to, from the state `first`.
  pub data Reachable (first : Shared A n) : Shared A n → Type ℓ where
    start : Reachable first first
    next : (s s' : Shared A n) → Reachable first s → Step s s' → Reachable first s'
