-- ===== src/Core/Spsc/Atomic/Progress.antt =====
-- A `pop`, or a `push`, of crates/riaps-core/src/spsc.rs goes through while the other thread stands
-- still at any point of its own call.
use Prim.Native.Nat.{◌∣◌}
use blockcat.Prelude.{
  ℕ, true, false, ◌+◌, ◌%◌, ◌≡◌, ◌≢◌, ◌∙◌, refl, ap, arith, none, some, List, [], ◌∷◌, ◌++◌, length,
  length-append, ◌<◌, set, usize_mod, wrapping_add, wrapping_sub,
}
use blockcat.Core.Spsc
use blockcat.Core.Spsc.{SpscRing, read_slot}
use blockcat.Core.Spsc.Models.{IsCapacity}
use blockcat.Core.Spsc.Atomic.{
  calm, has_tail, has_head, has_written, load_tail, load_head, write, store_tail, Consumer, quiet,
  saw_head, saw_tail, has_taken, Shared, Step, see_head, see_tail, read, store_head, at_rest,
  Reachable, next,
}
use blockcat.Core.Spsc.Atomic.Invariant.{front, in_hand, Sound}
use blockcat.Core.Spsc.Atomic.Safety.{Reachable-Sound, concurrent_ring}
use blockcat.Core.Spsc.Atomic.Turns.{is_push, Run, stay, go, Run-unique, Run-pushes}

module _ {ℓ} {A : Type ℓ} {n : ℕ} where
  -- Where an item is published and not taken, the tail is not the head.
  not_empty :
      (s : Shared A n) (q : List A)
      → IsCapacity n
      → Sound s q
      → s.consumer ≡ quiet
      → 0 < length q
      → s.ring.tail ≢ s.ring.head
  unfolding front
  not_empty s q cap sd e pos same =
      let none_taken : length (front s.consumer) ≡ 0 = ap length (ap front e) in
      omega (arith, sd.end, none_taken, sd.room, cap.small, sd.word, same)

  quiet-fifo :
      (s : Shared A n) (q : List A) → Sound s q → s.consumer ≡ quiet → s.pushed ≡ s.popped ++ q
  unfolding in_hand
  quiet-fifo s q sd e = sd.fifo ∙ ap (λ h. s.popped ++ (h ++ q)) (ap in_hand e)

module _ {ℓ} {A : Type ℓ} {n : ℕ} (d : n ∣ usize_mod) (cap : IsCapacity n) where
  -- In every state that a new ring whose capacity divides 2^64 and is below it comes to, in which the
  -- consumer is not in the middle of `pop` and fewer values were popped than pushed, with the
  -- producer at any point of `push`: four steps of the consumer alone, in which the producer stays
  -- where it is, end a `pop` that gives the oldest value that was pushed and not popped; and four
  -- steps of the consumer alone end nowhere else.
  pub pop_delivers :
      (r : SpscRing A n) (s : Shared A n)
      → Spsc.new n ≡ some r
      → Reachable (at_rest r) s
      → s.consumer ≡ quiet
      → length s.popped < length s.pushed
      → (x : A) × (rest : List A) × (s' : Shared A n) × Run false s 4 s'
        × (s.pushed ≡ s.popped ++ (x ∷ rest))
        × (s'.popped ≡ s.popped ++ (x ∷ []))
        × (s'.consumer ≡ quiet)
        × (s'.producer ≡ s.producer)
        × (s'.pushed ≡ s.pushed)
        × ((t : Shared A n) → Run false s 4 t → t ≡ s')
  unfolding in_hand is_push
  pop_delivers r s fresh reach e more =
      let (q, sd) = Reachable-Sound d cap r s fresh reach in
      let whole = quiet-fifo s q sd e in
      let pos : 0 < length q = omega (arith, more, ap length whole, length-append s.popped q) in
      let head = s.ring.head in
      let tail = s.ring.tail in
      let ne : tail ≢ head = not_empty s q cap sd e pos in
      let s₁ : Shared A n = record s { consumer = saw_head head } in
      let step₁ : Step s s₁ = see_head e in
      let s₂ : Shared A n = record s { consumer = saw_tail head tail } in
      let step₂ : Step s₁ s₂ = see_tail head refl in
      let r₂ = next s₁ s₂ (next s s₁ reach step₁) step₂ in
      let (q₂, fifo, room, reads, writes) = concurrent_ring d cap r s₂ fresh r₂ in
      let (x, rest, split, found) = reads head tail refl ne in
      let s₃ : Shared A n = record s {
        ring = record s.ring { buf = set s.ring.buf (head % n) none };
        consumer = has_taken head x;
      } in
      let step₃ : Step s₂ s₃ = read head tail x refl ne found in
      let s₄ : Shared A n = record s₃ {
        ring = record s₃.ring { head = wrapping_add head 1 };
        consumer = quiet;
        popped = s.popped ++ (x ∷ []);
      } in
      let step₄ : Step s₃ s₄ = store_head head x refl in
      let run : Run false s 4 s₄ =
        go 3 s₃ s₄ (go 2 s₂ s₃ (go 1 s₁ s₂ (go 0 s s₁ stay step₁ refl) step₂ refl) step₃ refl) step₄
          refl in
      (
        x,
        rest,
        s₄,
        run,
        fifo ∙ after s₂ refl q₂ ∙ ap (λ xs. s.popped ++ xs) split,
        refl,
        refl,
        refl,
        refl,
        λ t run'. Run-unique s t s₄ 4 run' run,
      )
    where
      after :
          (t : Shared A n)
          → in_hand t.consumer ≡ []
          → (xs : List A) → t.popped ++ (in_hand t.consumer ++ xs) ≡ t.popped ++ xs
      after t h xs = ap (λ k. t.popped ++ (k ++ xs)) h

  front-in_hand : (c : Consumer A) → length (front c) ≡ length (in_hand c)
  unfolding front in_hand
  front-in_hand quiet = refl
  front-in_hand (saw_head head) = refl
  front-in_hand (saw_tail head tail) = refl
  front-in_hand (has_taken head v) = refl

  -- In every state that a new ring whose capacity divides 2^64 and is below it comes to, in which the
  -- producer is not in the middle of `push` and fewer than `n` values were pushed and not popped, with
  -- the consumer at any point of `pop`: four steps of the producer alone, in which the consumer stays
  -- where it is, end a `push` that has pushed its value; and any four steps of the producer alone have
  -- pushed a value.
  pub push_accepts :
      (r : SpscRing A n) (s : Shared A n) (value : A)
      → Spsc.new n ≡ some r
      → Reachable (at_rest r) s
      → s.producer ≡ calm
      → length s.pushed < length s.popped + n
      → (s' : Shared A n) × Run true s 4 s'
        × (s'.pushed ≡ s.pushed ++ (value ∷ []))
        × (s'.producer ≡ calm)
        × (s'.consumer ≡ s.consumer)
        × (s'.popped ≡ s.popped)
        × ((t : Shared A n) → Run true s 4 t → (v : A) × (t.pushed ≡ s.pushed ++ (v ∷ [])))
  unfolding is_push
  push_accepts r s value fresh reach e room =
      let (q, sd) = Reachable-Sound d cap r s fresh reach in
      let head = s.ring.head in
      let tail = s.ring.tail in
      let used : length (front s.consumer) + length q < n = omega (
        arith,
        room,
        ap length sd.fifo,
        length-append s.popped (in_hand s.consumer ++ q),
        length-append (in_hand s.consumer) q,
        front-in_hand s.consumer,
      ) in
      let ne : wrapping_sub tail head ≢ n =
        (λ full. omega (arith, full, used, sd.end, sd.word, cap.small)) in
      let s₁ : Shared A n = record s { producer = has_tail value tail } in
      let s₂ : Shared A n = record s { producer = has_head value tail head } in
      let s₃ : Shared A n = record s {
        ring = record s.ring { buf = set s.ring.buf (tail % n) (some value) };
        producer = has_written value tail;
      } in
      let s₄ : Shared A n = record s₃ {
        ring = record s₃.ring { tail = wrapping_add tail 1 };
        producer = calm;
        pushed = s.pushed ++ (value ∷ []);
      } in
      let step₁ : Step s s₁ = load_tail value e in
      let step₂ : Step s₁ s₂ = load_head value tail refl in
      let step₃ : Step s₂ s₃ = write value tail head refl ne in
      let step₄ : Step s₃ s₄ = store_tail value tail refl in
      (
        s₄,
        go 3 s₃ s₄ (go 2 s₂ s₃ (go 1 s₁ s₂ (go 0 s s₁ stay step₁ refl) step₂ refl) step₃ refl) step₄
            refl,
        refl,
        refl,
        refl,
        refl,
        λ t run. Run-pushes s t e ne run,
      )
