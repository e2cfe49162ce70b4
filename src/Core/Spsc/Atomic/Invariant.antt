-- ===== src/Core/Spsc/Atomic/Invariant.antt =====
-- What holds of a ring of crates/riaps-core/src/spsc.rs while its two threads are at work.

use blockcat.Prelude.{
  ℕ, ◌+◌, ◌≤◌, ◌<◌, ◌≡◌, Option, none, some, List, [], ◌∷◌, ◌++◌, map, length, usize_mod,
  wrapping_add, Holds,
}
use blockcat.Core.Spsc.Layout.{slot}
use blockcat.Core.Spsc.Atomic.{
  Producer, calm, has_tail, has_head, has_written, Consumer, quiet, saw_head, saw_tail, has_taken,
  Shared,
}

module _ {ℓ} {A : Type ℓ} where
  -- The slot that the producer has written and not published yet.
  unfoldable pub back : Producer A → List (Option A)
  back (has_written value tail) = some value ∷ []
  back _ = []

  -- The slot that the consumer has emptied and not given back yet.
  unfoldable pub front : Consumer A → List (Option A)
  front (has_taken head value) = none ∷ []
  front _ = []

  -- The value that the consumer has taken and not returned yet.
  unfoldable pub in_hand : Consumer A → List A
  in_hand (has_taken head value) = value ∷ []
  in_hand _ = []

  -- What the producer knows: `tail` is its own, and `head` may be out of date, by `d` pops.
  unfoldable pub Knows : (n head tail used : ℕ) → Producer A → Type 0
  Knows n head tail used calm = Unit
  Knows n head tail used (has_tail value t) = t ≡ tail
  Knows n head tail used (has_head value t h) =
      (t ≡ tail) × (d : ℕ) × (h < usize_mod) × (head ≡ wrapping_add h d) × (used + d ≤ n)
  Knows n head tail used (has_written value t) = t ≡ tail

  -- What the consumer knows: `head` is its own, and `tail` may be out of date; it is `e` items ahead.
  unfoldable pub Sees : (head waiting : ℕ) → Consumer A → Type 0
  Sees head waiting quiet = Unit
  Sees head waiting (saw_head h) = h ≡ head
  Sees head waiting (saw_tail h t) = (h ≡ head) × (e : ℕ) × (t ≡ wrapping_add h e) × (e ≤ waiting)
  Sees head waiting (has_taken h value) = h ≡ head

  -- The ring holds the queue `q` of the items that are published and not taken. From `head` on stand
  -- the slot that the consumer has emptied, the items, and the slot that the producer has written.
  pub record Sound {n : ℕ} (s : Shared A n) (q : List A) : Type ℓ where
    pub size : length s.ring.buf ≡ n
    pub word : s.ring.head < usize_mod
    pub room : length (front s.consumer) + length q + length (back s.producer) ≤ n
    pub end : s.ring.tail ≡ wrapping_add s.ring.head (length (front s.consumer) + length q)
    pub held :
        Holds s.ring.buf (slot n s.ring.head) (front s.consumer ++ (map some q ++ back s.producer))
    pub knows : Knows n s.ring.head s.ring.tail (length (front s.consumer) + length q) s.producer
    pub sees : Sees s.ring.head (length q) s.consumer
    pub fifo : s.pushed ≡ s.popped ++ (in_hand s.consumer ++ q)
