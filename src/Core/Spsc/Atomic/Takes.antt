-- ===== src/Core/Spsc/Atomic/Takes.antt =====
-- The steps of `pop` in crates/riaps-core/src/spsc.rs.
use mathlib.Core.Option.{some-injective}
use blockcat.Prelude.{
  ℕ, suc, ◌+◌, ◌%◌, ◌≤◌, ◌<◌, ◌≡◌, ◌≢◌, ◌∙◌, refl, sym, ap, subst, arith, Option, none, some, List,
  [], ◌∷◌, ◌++◌, append_assoc, map, length, length-append, length-map, length-set, set, usize_mod,
  get_elem?, get_elem?-set_self, wrapping_add, Holds, Holds-set, Holds-ext,
}
use Prim.Native.Nat.{◌∣◌}
use blockcat.Core.Spsc.{read_slot}
use blockcat.Core.Spsc.Layout.{slot, slot-suc, slot-ne_of_dvd}
use blockcat.Core.Spsc.Models.{IsCapacity}
use blockcat.Core.Spsc.Atomic.{
  Producer, calm, has_tail, has_head, has_written, Consumer, quiet, saw_head, saw_tail, has_taken,
  Shared,
}
use blockcat.Core.Spsc.Atomic.Invariant.{back, front, in_hand, Knows, Sees, Sound}

module _ {ℓ} {A : Type ℓ} where
  pub read_item :
      (buf : List (Option A)) (i j : ℕ) (x : A)
      → i ≡ j
      → get_elem? buf j ≡ some (some x)
      → read_slot buf i ≡ some x
  unfolding read_slot
  read_item buf i j x e h = rw (e, read_slot, h) refl

  -- A pop that is over leaves the producer with a head that is out of date by one more.
  Knows-later :
      (n head tail used : ℕ) (p : Producer A)
      → head < usize_mod
      → Knows n head tail (suc used) p
      → Knows n (wrapping_add head 1) tail used p
  unfolding Knows
  Knows-later n head tail used calm w h = tt
  Knows-later n head tail used (has_tail v t) w h = h
  Knows-later n head tail used (has_head v t k) w (same, d, small, late, fits) =
      (same, suc d, small, omega (arith, late, small), omega (arith, fits))
  Knows-later n head tail used (has_written v t) w h = h

module _ {ℓ} {A : Type ℓ} {n : ℕ} where
  -- The consumer goes on, and takes nothing.
  pub move_consumer :
      (s : Shared A n) (q : List A) (c : Consumer A)
      → Sound s q
      → front s.consumer ≡ front c
      → in_hand s.consumer ≡ in_hand c
      → Sees s.ring.head (length q) c
      → Sound (record s { consumer = c }) q
  move_consumer s q c sd e e' sees = record {
    size = sd.size;
    word = sd.word;
    room = subst (λ f. length f + length q + length (back s.producer) ≤ n) e sd.room;
    end = subst (λ f. s.ring.tail ≡ wrapping_add s.ring.head (length f + length q)) e sd.end;
    held =
        subst (λ f. Holds s.ring.buf (slot n s.ring.head) (f ++ (map some q ++ back s.producer))) e
          sd.held;
    knows =
        subst (λ f. Knows n s.ring.head s.ring.tail (length f + length q) s.producer) e sd.knows;
    sees = sees;
    fifo = subst (λ h. s.pushed ≡ s.popped ++ (h ++ q)) e' sd.fifo;
  }

  pub see_head-Sound :
      (s : Shared A n) (q : List A)
      → Sound s q
      → s.consumer ≡ quiet
      → Sound (record s { consumer = saw_head s.ring.head }) q
  unfolding front in_hand Sees
  see_head-Sound s q sd e =
      move_consumer s q (saw_head s.ring.head) sd (ap front e) (ap in_hand e) refl

  pub see_tail-Sound :
      (s : Shared A n) (q : List A) (head : ℕ)
      → Sound s q
      → s.consumer ≡ saw_head head
      → Sound (record s { consumer = saw_tail head s.ring.tail }) q
  unfolding front in_hand Sees
  see_tail-Sound s q head sd e =
      let same : head ≡ s.ring.head = subst (Sees s.ring.head (length q)) e sd.sees in
      let none_taken : length (front s.consumer) ≡ 0 = ap length (ap front e) in
      move_consumer s q (saw_tail head s.ring.tail) sd (ap front e) (ap in_hand e)
        (same, length q, omega (arith, same, sd.end, none_taken), omega arith)

  pub give_up-Sound :
      (s : Shared A n) (q : List A) (head tail : ℕ)
      → Sound s q
      → s.consumer ≡ saw_tail head tail
      → Sound (record s { consumer = quiet }) q
  unfolding front in_hand Sees
  give_up-Sound s q head tail sd e = move_consumer s q quiet sd (ap front e) (ap in_hand e) tt

  -- Where the loaded tail is not the head, an item is there, and it stands in the slot of the head.
  pub next_item :
      (s : Shared A n) (q : List A) (head tail : ℕ)
      → Sound s q
      → s.consumer ≡ saw_tail head tail
      → tail ≢ head
      → (x : A) × (rest : List A) × (q ≡ x ∷ rest)
        × (head ≡ s.ring.head)
        × (get_elem? s.ring.buf (slot n s.ring.head 0) ≡ some (some x))
        × Holds s.ring.buf (λ i. slot n s.ring.head (suc i)) (map some rest ++ back s.producer)
  unfolding front Sees
  next_item s [] head tail sd e ne =
      let (same, d, late, near) = subst (Sees s.ring.head 0) e sd.sees in
      absurd (ne (omega (arith, same, late, near, sd.word)))
  next_item s (x ∷ rest) head tail sd e ne =
      let (same, d, late, near) = subst (Sees s.ring.head (length (x ∷ rest))) e sd.sees in
      let held =
        subst
          (λ f.
            Holds s.ring.buf (slot n s.ring.head) (f ++ (map some (x ∷ rest) ++ back s.producer)))
          (ap front e) sd.held in
      (x, rest, refl, same, held.0, held.1)

  pub read-Sound :
      (s : Shared A n) (q : List A) (head tail : ℕ) (value : A)
      → n ∣ usize_mod
      → IsCapacity n
      → Sound s q
      → s.consumer ≡ saw_tail head tail
      → tail ≢ head
      → read_slot s.ring.buf (head % n) ≡ some value
      → (rest : List A) × (q ≡ value ∷ rest)
        × Sound
            (record s {
              ring = record s.ring { buf = set s.ring.buf (head % n) none };
              consumer = has_taken head value;
            })
            rest
  unfolding front in_hand Sees
  read-Sound s q head tail value d cap sd e ne found =
      let (x, rest, split, same, item, others) = next_item s q head tail sd e ne in
      let place : head % n ≡ slot n s.ring.head 0 =
        ap (λ k. k % n) (omega (arith, same, sd.word)) in
      let value_is : x ≡ value =
        some-injective x value
          (sym (read_item s.ring.buf (head % n) (slot n s.ring.head 0) x place item) ∙ found) in
      let none_taken : length (front s.consumer) ≡ 0 = ap length (ap front e) in
      let long : length q ≡ suc (length rest) = ap length split in
      let room : suc (length rest) + length (back s.producer) ≤ n =
        omega (arith, sd.room, none_taken, long) in
      let used : length (front s.consumer) + length q ≡ 1 + length rest =
        omega (arith, none_taken, long) in
      let cells = map some rest ++ back s.producer in
      let size : length cells ≡ length rest + length (back s.producer) =
        length-append (map some rest) (back s.producer)
        ∙ ap (λ k. k + length (back s.producer)) (length-map some rest) in
      (
        rest,
        split ∙ ap (λ y. y ∷ rest) value_is,
        record {
          size = length-set s.ring.buf (head % n) none ∙ sd.size;
          word = sd.word;
          room = omega (arith, room);
          end = sd.end ∙ ap (wrapping_add s.ring.head) used;
          held = (
            ap (λ i. get_elem? (set s.ring.buf i none) (slot n s.ring.head 0)) place
                ∙ get_elem?-set_self s.ring.buf (slot n s.ring.head 0) none
                    (omega (arith, sd.size, cap.positive)),
            Holds-set s.ring.buf (λ i. slot n s.ring.head (suc i)) cells (head % n) none
                (λ i below same_slot.
                  slot-ne_of_dvd n s.ring.head 0 (suc i) d (omega arith)
                    (omega (arith, size, below, room)) (sym same_slot ∙ place))
                others,
          );
          knows = subst (λ k. Knows n s.ring.head s.ring.tail k s.producer) used sd.knows;
          sees = same;
          fifo =
              sd.fifo
              ∙ ap (λ h. s.popped ++ (h ++ q)) (ap in_hand e)
              ∙ ap (λ xs. s.popped ++ xs) (split ∙ ap (λ y. y ∷ rest) value_is);
        },
      )

  pub store_head-Sound :
      (s : Shared A n) (q : List A) (head : ℕ) (value : A)
      → Sound s q
      → s.consumer ≡ has_taken head value
      → Sound
          (record s {
            ring = record s.ring { head = wrapping_add head 1 };
            consumer = quiet;
            popped = s.popped ++ (value ∷ []);
          })
          q
  unfolding front in_hand Sees
  store_head-Sound s q head value sd e =
      let same : head ≡ s.ring.head = subst (Sees s.ring.head (length q)) e sd.sees in
      let taken : length (front s.consumer) ≡ 1 = ap length (ap front e) in
      let used : length (front s.consumer) + length q ≡ suc (0 + length q) = omega (arith, taken) in
      let held =
        subst (λ f. Holds s.ring.buf (slot n s.ring.head) (f ++ (map some q ++ back s.producer)))
          (ap front e) sd.held in
      record {
        size = sd.size;
        word = omega arith;
        room = omega (arith, sd.room, taken);
        end = omega (arith, sd.end, taken, same, sd.word);
        held =
            subst
              (λ h. Holds s.ring.buf (slot n (wrapping_add h 1)) (map some q ++ back s.producer))
              (sym same)
              (Holds-ext s.ring.buf (λ i. slot n s.ring.head (suc i))
                (slot n (wrapping_add s.ring.head 1)) (map some q ++ back s.producer)
                (slot-suc n s.ring.head) held.1);
        knows =
            subst (λ h. Knows n (wrapping_add h 1) s.ring.tail (0 + length q) s.producer) (sym same)
              (Knows-later n s.ring.head s.ring.tail (0 + length q) s.producer sd.word
                (subst (λ k. Knows n s.ring.head s.ring.tail k s.producer) used sd.knows));
        sees = tt;
        fifo =
            sd.fifo
            ∙ ap (λ h. s.popped ++ (h ++ q)) (ap in_hand e)
            ∙ sym (append_assoc s.popped (value ∷ []) q);
      }
