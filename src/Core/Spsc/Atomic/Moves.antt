-- ===== src/Core/Spsc/Atomic/Moves.antt =====
-- The steps of `push` in crates/riaps-core/src/spsc.rs.
use mathlib.Core.List.{map-append}
use blockcat.Prelude.{
  ℕ, ◌+◌, ◌%◌, ◌≤◌, ◌<◌, ◌≡◌, ◌≢◌, ◌∙◌, refl, sym, ap, subst, arith, dec_lt, some, List, [], ◌∷◌,
  ◌++◌, append-nil, append_assoc, map, length, length-append, length-map, length-set, set,
  usize_mod, wrapping_add, wrapping_sub, Holds, Holds-push,
}
use Prim.Native.Nat.{◌∣◌}
use blockcat.Core.Spsc.Layout.{slot, slot-ne_of_dvd}
use blockcat.Core.Spsc.Models.{IsCapacity}
use blockcat.Core.Spsc.Atomic.{
  Producer, calm, has_tail, has_head, has_written, Consumer, quiet, saw_head, saw_tail, has_taken,
  Shared,
}
use blockcat.Core.Spsc.Atomic.Invariant.{back, front, in_hand, Knows, Sees, Sound}

module _ {ℓ} {A : Type ℓ} where
  Sees-more :
      (head waiting waiting' : ℕ) (c : Consumer A)
      → waiting ≤ waiting'
      → Sees head waiting c
      → Sees head waiting' c
  unfolding Sees
  Sees-more head w w' quiet le h = tt
  Sees-more head w w' (saw_head k) le h = h
  Sees-more head w w' (saw_tail k t) le (same, e, there, near) = (same, e, there, omega arith)
  Sees-more head w w' (has_taken k v) le h = h

module _ {ℓ} {A : Type ℓ} {n : ℕ} where
  -- The producer goes on, and writes nothing.
  pub move_producer :
      (s : Shared A n) (q : List A) (p : Producer A)
      → Sound s q
      → back s.producer ≡ back p
      → Knows n s.ring.head s.ring.tail (length (front s.consumer) + length q) p
      → Sound (record s { producer = p }) q
  move_producer s q p sd e knows = record {
    size = sd.size;
    word = sd.word;
    room = subst (λ b. length (front s.consumer) + length q + length b ≤ n) e sd.room;
    end = sd.end;
    held =
        subst (λ b. Holds s.ring.buf (slot n s.ring.head) (front s.consumer ++ (map some q ++ b))) e
          sd.held;
    knows = knows;
    sees = sd.sees;
    fifo = sd.fifo;
  }

  pub load_tail-Sound :
      (s : Shared A n) (q : List A) (v : A)
      → Sound s q
      → s.producer ≡ calm
      → Sound (record s { producer = has_tail v s.ring.tail }) q
  unfolding back Knows
  load_tail-Sound s q v sd e = move_producer s q (has_tail v s.ring.tail) sd (ap back e) refl

  pub load_head-Sound :
      (s : Shared A n) (q : List A) (v : A) (tail : ℕ)
      → Sound s q
      → s.producer ≡ has_tail v tail
      → Sound (record s { producer = has_head v tail s.ring.head }) q
  unfolding back Knows
  load_head-Sound s q v tail sd e =
      let used = length (front s.consumer) + length q in
      let mine : tail ≡ s.ring.tail = subst (Knows n s.ring.head s.ring.tail used) e sd.knows in
      move_producer s q (has_head v tail s.ring.head) sd (ap back e)
        (mine, 0, sd.word, omega (arith, sd.word), omega (arith, sd.room))

  pub refuse-Sound :
      (s : Shared A n) (q : List A) (v : A) (tail head : ℕ)
      → Sound s q
      → s.producer ≡ has_head v tail head
      → Sound (record s { producer = calm }) q
  unfolding back Knows
  refuse-Sound s q v tail head sd e = move_producer s q calm sd (ap back e) tt

  -- The head that the producer has loaded may be out of date, but its test is on the safe side.
  pub not_full :
      (s : Shared A n) (q : List A) (v : A) (tail head : ℕ)
      → IsCapacity n
      → Sound s q
      → s.producer ≡ has_head v tail head
      → wrapping_sub tail head ≢ n
      → length (front s.consumer) + length q < n
  unfolding Knows
  not_full s q v tail head cap sd e ne =
      let used = length (front s.consumer) + length q in
      let (mine, d, small, late, fits) = subst (Knows n s.ring.head s.ring.tail used) e sd.knows in
      elim (dec_lt used n) [
        | yes lt ↦ lt
        | no ge ↦ absurd (ne (omega (arith, mine, small, late, fits, sd.end, cap.small)))
      ]

  pub write-Sound :
      (s : Shared A n) (q : List A) (v : A) (tail head : ℕ)
      → n ∣ usize_mod
      → IsCapacity n
      → Sound s q
      → s.producer ≡ has_head v tail head
      → wrapping_sub tail head ≢ n
      → Sound
          (record s {
            ring = record s.ring { buf = set s.ring.buf (tail % n) (some v) };
            producer = has_written v tail;
          })
          q
  unfolding back Knows
  write-Sound s q v tail head d cap sd e ne =
      let used = length (front s.consumer) + length q in
      let lt = not_full s q v tail head cap sd e ne in
      let mine : tail ≡ s.ring.tail = (subst (Knows n s.ring.head s.ring.tail used) e sd.knows).0 in
      let cells = front s.consumer ++ map some q in
      let count : length cells ≡ used =
        length-append (front s.consumer) (map some q)
        ∙ ap (λ k. length (front s.consumer) + k) (length-map some q) in
      let place : tail % n ≡ slot n s.ring.head (length cells) =
        ap (λ t. t % n) (mine ∙ sd.end) ∙ ap (slot n s.ring.head) (sym count) in
      let held : Holds s.ring.buf (slot n s.ring.head) cells =
        subst (Holds s.ring.buf (slot n s.ring.head))
          (ap (λ b. front s.consumer ++ (map some q ++ b)) (ap back e)
            ∙ ap (λ m. front s.consumer ++ m) (append-nil (map some q)))
          sd.held in
      record {
        size = length-set s.ring.buf (tail % n) (some v) ∙ sd.size;
        word = sd.word;
        room = omega (arith, lt);
        end = sd.end;
        held =
            subst
              (λ i.
                Holds (set s.ring.buf i (some v)) (slot n s.ring.head)
                  (front s.consumer ++ (map some q ++ (some v ∷ []))))
              (sym place)
              (subst
                (Holds (set s.ring.buf (slot n s.ring.head (length cells)) (some v))
                  (slot n s.ring.head))
                (append_assoc (front s.consumer) (map some q) (some v ∷ []))
                (Holds-push s.ring.buf (slot n s.ring.head) cells (some v)
                  (omega (arith, sd.size, cap.positive))
                  (λ i below.
                    slot-ne_of_dvd n s.ring.head i (length cells) d below
                      (omega (arith, count, lt)))
                  held));
        knows = mine;
        sees = sd.sees;
        fifo = sd.fifo;
      }

  pub store_tail-Sound :
      (s : Shared A n) (q : List A) (v : A) (tail : ℕ)
      → Sound s q
      → s.producer ≡ has_written v tail
      → Sound
          (record s {
            ring = record s.ring { tail = wrapping_add tail 1 };
            producer = calm;
            pushed = s.pushed ++ (v ∷ []);
          })
          (q ++ (v ∷ []))
  unfolding back Knows
  store_tail-Sound s q v tail sd e =
      let used = length (front s.consumer) + length q in
      let mine : tail ≡ s.ring.tail = subst (Knows n s.ring.head s.ring.tail used) e sd.knows in
      let more = length-append q (v ∷ []) in
      let written : back s.producer ≡ some v ∷ [] = ap back e in
      let cells : map some q ++ (some v ∷ []) ≡ map some (q ++ (v ∷ [])) ++ [] =
        sym (map-append some q (v ∷ [])) ∙ sym (append-nil (map some (q ++ (v ∷ [])))) in
      record {
        size = sd.size;
        word = sd.word;
        room = omega (arith, sd.room, ap length written, more);
        end = omega (arith, mine, sd.end, more);
        held =
            subst (λ m. Holds s.ring.buf (slot n s.ring.head) (front s.consumer ++ m))
              (ap (λ b. map some q ++ b) written ∙ cells) sd.held;
        knows = tt;
        sees =
            Sees-more s.ring.head (length q) (length (q ++ (v ∷ []))) s.consumer (omega arith)
              sd.sees;
        fifo =
            ap (λ xs. xs ++ (v ∷ [])) sd.fifo
            ∙ append_assoc s.popped (in_hand s.consumer ++ q) (v ∷ [])
            ∙ ap (λ xs. s.popped ++ xs) (append_assoc (in_hand s.consumer) q (v ∷ []));
      }
