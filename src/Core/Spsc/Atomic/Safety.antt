-- ===== src/Core/Spsc/Atomic/Safety.antt =====
-- The ring of crates/riaps-core/src/spsc.rs is a queue for one producer and one consumer at the same
-- time.
use Prim.Native.Nat.{◌∣◌}
use mathlib.Core.Option.{some-injective}
use blockcat.Prelude.{
  ℕ, suc, ◌+◌, ◌%◌, ◌≤◌, ◌<◌, ◌≡◌, ◌≢◌, ◌∙◌, refl, sym, ap, subst, arith, false, none, some, List,
  [], ◌∷◌, ◌++◌, ◌==◌, if◌then◌else◌, length, length-replicate, replicate, usize_mod, wrapping_sub,
}
use blockcat.Core.Spsc
use blockcat.Core.Spsc.{SpscRing, read_slot}
use blockcat.Core.Spsc.Layout.{slot, slot-ne_of_dvd}
use blockcat.Core.Spsc.Models.{IsCapacity}
use blockcat.Core.Spsc.Atomic.{
  has_head, saw_tail, Shared, Step, load_tail, load_head, refuse, write, store_tail, see_head,
  see_tail, give_up, read, store_head, at_rest, Reachable, start, next,
}
use blockcat.Core.Spsc.Atomic.Invariant.{back, front, in_hand, Knows, Sees, Sound}
use blockcat.Core.Spsc.Atomic.Moves.{
  load_tail-Sound, load_head-Sound, refuse-Sound, not_full, write-Sound, store_tail-Sound,
}
use blockcat.Core.Spsc.Atomic.Takes.{
  see_head-Sound, see_tail-Sound, give_up-Sound, next_item, read_item, read-Sound, store_head-Sound,
}

module _ {ℓ} {A : Type ℓ} {n : ℕ} (d : n ∣ usize_mod) (cap : IsCapacity n) where
  Step-Sound :
      (s s' : Shared A n) (q : List A) → Sound s q → Step s s' → (q' : List A) × Sound s' q'
  Step-Sound s s' q sd (load_tail v e) = (q, load_tail-Sound s q v sd e)
  Step-Sound s s' q sd (load_head v tail e) = (q, load_head-Sound s q v tail sd e)
  Step-Sound s s' q sd (refuse v tail head e full) = (q, refuse-Sound s q v tail head sd e)
  Step-Sound s s' q sd (write v tail head e ne) = (q, write-Sound s q v tail head d cap sd e ne)
  Step-Sound s s' q sd (store_tail v tail e) = (q ++ (v ∷ []), store_tail-Sound s q v tail sd e)
  Step-Sound s s' q sd (see_head e) = (q, see_head-Sound s q sd e)
  Step-Sound s s' q sd (see_tail head e) = (q, see_tail-Sound s q head sd e)
  Step-Sound s s' q sd (give_up head tail e same) = (q, give_up-Sound s q head tail sd e)
  Step-Sound s s' q sd (read head tail v e ne found) =
      let (rest, split, sd') = read-Sound s q head tail v d cap sd e ne found in (rest, sd')
  Step-Sound s s' q sd (store_head head v e) = (q, store_head-Sound s q head v sd e)

  at_rest-Sound : (r : SpscRing A n) → Spsc.new n ≡ some r → Sound (at_rest r) []
  unfolding Spsc.new back front in_hand Knows Sees
  at_rest-Sound r e =
      let positive : (n == 0) ≡ false = (let p = cap.positive in ground arith) in
      let fresh : SpscRing A n = record { head = 0; tail = 0; buf = replicate n none } in
      let same : fresh ≡ r =
        some-injective fresh r (sym (ap (λ t. if t then none else some fresh) positive) ∙ e) in
      subst (λ ring. Sound (at_rest ring) []) same
        (record {
          size = length-replicate n none;
          word = omega arith;
          room = omega arith;
          end = refl;
          held = tt;
          knows = tt;
          sees = tt;
          fifo = refl;
        })

  pub Reachable-Sound :
      (r : SpscRing A n) (s : Shared A n)
      → Spsc.new n ≡ some r
      → Reachable (at_rest r) s
      → (q : List A) × Sound s q
  Reachable-Sound r s e start = ([], at_rest-Sound r e)
  Reachable-Sound r s e (next s₀ s₁ reach step) =
      let (q, sd) = Reachable-Sound r s₀ e reach in Step-Sound s₀ s₁ q sd step

  -- The slot that is about to be written is not the one that is about to be read.
  no_race :
      (s : Shared A n) (q : List A) (v : A) (tail head head' tail' : ℕ)
      → Sound s q
      → s.producer ≡ has_head v tail head
      → wrapping_sub tail head ≢ n
      → s.consumer ≡ saw_tail head' tail'
      → tail' ≢ head'
      → tail % n ≢ head' % n
  unfolding Knows front
  no_race s q v tail head head' tail' sd e ne e' ne' same_slot =
      let used = length (front s.consumer) + length q in
      let lt = not_full s q v tail head cap sd e ne in
      let (x, rest, split, same, item, others) = next_item s q head' tail' sd e' ne' in
      let long : length q ≡ suc (length rest) = ap length split in
      let mine : tail ≡ s.ring.tail = (subst (Knows n s.ring.head s.ring.tail used) e sd.knows).0 in
      let place : tail % n ≡ slot n s.ring.head used = ap (λ t. t % n) (mine ∙ sd.end) in
      let place' : head' % n ≡ slot n s.ring.head 0 =
        ap (λ k. k % n) (omega (arith, same, sd.word)) in
      slot-ne_of_dvd n s.ring.head 0 used d (omega (arith, long)) (omega (arith, lt))
        (sym place ∙ same_slot ∙ place')

  -- From a new ring whose capacity divides 2^64 and is below it, with one producer in `push` and one
  -- consumer in `pop` and their loads, slot accesses and stores in any order: what was pushed is what
  -- was popped, in order, then the value that the consumer has taken and not returned yet, and then
  -- the queue in the ring; all slots in use are at most the capacity; where the consumer is to read a
  -- slot, it holds the oldest value of the queue; where the producer is to write one, one is free;
  -- and the two are never about to touch the same slot.
  pub concurrent_ring :
      (r : SpscRing A n) (s : Shared A n)
      → Spsc.new n ≡ some r
      → Reachable (at_rest r) s
      → (q : List A) × (s.pushed ≡ s.popped ++ (in_hand s.consumer ++ q))
        × (length (front s.consumer) + length q + length (back s.producer) ≤ n)
        × ((head tail : ℕ)
            → s.consumer ≡ saw_tail head tail
            → tail ≢ head
            → (x : A) × (rest : List A) × (q ≡ x ∷ rest)
              × (read_slot s.ring.buf (head % n) ≡ some x))
        × ((v : A) (tail head : ℕ)
            → s.producer ≡ has_head v tail head
            → wrapping_sub tail head ≢ n
            → (length (front s.consumer) + length q < n)
              × ((head' tail' : ℕ)
                  → s.consumer ≡ saw_tail head' tail'
                  → tail' ≢ head'
                  → tail % n ≢ head' % n))
  concurrent_ring r s fresh reach =
      let (q, sd) = Reachable-Sound r s fresh reach in
      (
        q,
        sd.fifo,
        sd.room,
        λ head tail e ne.
            let (x, rest, split, same, item, others) = next_item s q head tail sd e ne in
            (
              x,
              rest,
              split,
              read_item s.ring.buf (head % n) (slot n s.ring.head 0) x
                  (ap (λ k. k % n) (omega (arith, same, sd.word))) item,
            ),
        λ v tail head e ne. (
          not_full s q v tail head cap sd e ne,
          λ head' tail' e' ne'. no_race s q v tail head head' tail' sd e ne e' ne',
        ),
      )
