-- ===== src/Core/Spsc/Batch.antt =====
-- The loops of the ring: `pop_slice_copy`, which copies `m` items, and `drop`, which drops them all.
use native.Mathlib.Nat.{add-zero}
use blockcat.Prelude.{
  ℕ, subst, zero, suc, ◌+◌, ◌%◌, ◌≤◌, ◌<◌, ◌≡◌, ◌≢◌, ap, refl, arith, Option, some, List, [], ◌∷◌,
  map, ok, err, length, get_elem?, take, drop, length-drop, usize_mod, wrapping_add, wrapping_sub,
  Holds, Holds-ext,
}
use blockcat.Core.Spsc.{
  SpscRing, insufficient_data, pop_slice_copy, read_slots, read_slot, drop_from, drop_ring, len,
}
use blockcat.Core.Spsc.Layout.{slot, slot-suc}
use blockcat.Core.Spsc.Models.{IsCapacity, Models, len-Models}

module _ {ℓ} {A : Type ℓ} where
  Holds-drop :
      (buf : List (Option A)) (s : ℕ → ℕ) (m : ℕ) (q : List A)
      → Holds buf s (map some q)
      → Holds buf (λ i. s (m + i)) (map some (drop m q))
  Holds-drop buf s zero q h =
      Holds-ext buf s (λ i. s (0 + i)) (map some q) (λ i. ap s (omega arith)) h
  Holds-drop buf s (suc m) [] h = tt
  Holds-drop buf s (suc m) (x ∷ q) h =
      Holds-ext buf (λ i. s (suc (m + i))) (λ i. s (suc m + i)) (map some (drop m q))
        (λ i. ap s (omega arith)) (Holds-drop buf (λ i. s (suc i)) m q h.1)

  drop_from_lem :
      (n : ℕ) (buf : List (Option A)) (fuel i tail : ℕ) (q : List A)
      → length q < fuel
      → i < usize_mod
      → length q < usize_mod
      → tail ≡ wrapping_add i (length q)
      → Holds buf (slot n i) (map some q)
      → drop_from n fuel buf i tail ≡ some q
  unfolding drop_from read_slot
  drop_from_lem n buf zero i tail q lt w small e h = absurd (omega arith)
  drop_from_lem n buf (suc fuel) i tail [] lt w small e h =
      let e' : i ≡ tail = omega arith in ground arith
  drop_from_lem n buf (suc fuel) i tail (x ∷ q) lt w small e h =
      let more : i ≢ tail = omega arith in
      let here : get_elem? buf (i % n) ≡ some (some x) =
        subst (λ k. get_elem? buf (k % n) ≡ some (some x)) (omega arith) h.0 in
      let rest : drop_from n fuel buf (wrapping_add i 1) tail ≡ some q =
        drop_from_lem n buf fuel (wrapping_add i 1) tail q (omega arith) (omega arith) (omega arith)
          (omega arith)
          (Holds-ext buf (λ j. slot n i (suc j)) (slot n (wrapping_add i 1)) (map some q)
            (slot-suc n i) h.1) in
      ground arith

module _ {ℓ} {A : Type ℓ} {n : ℕ} where
  read_slots_lem :
      (r : SpscRing A n) (m i : ℕ) (q : List A)
      → m ≤ length q
      → Holds r.buf (λ j. slot n r.head (i + j)) (map some q)
      → read_slots r m i ≡ some (take m q)
  unfolding read_slots read_slot
  read_slots_lem r zero i q le h = refl
  read_slots_lem r (suc m) i [] le h = absurd (omega arith)
  read_slots_lem r (suc m) i (x ∷ q) le h =
      let here : get_elem? r.buf (slot n r.head i) ≡ some (some x) =
        subst (λ k. get_elem? r.buf (slot n r.head k) ≡ some (some x)) (add-zero i) h.0 in
      let rest : read_slots r m (i + 1) ≡ some (take m q) =
        read_slots_lem r m (i + 1) q (omega arith) (
          Holds-ext r.buf (λ j. slot n r.head (i + suc j)) (λ j. slot n r.head (i + 1 + j))
            (map some q) (λ j. ap (slot n r.head) (omega arith)) h.1) in
      ground arith

  pub pop_slice_copy_short :
      (r : SpscRing A n) (q : List A) (m : ℕ)
      → IsCapacity n
      → Models r q
      → length q < m
      → pop_slice_copy r m ≡ some (err insufficient_data, r)
  unfolding pop_slice_copy
  pop_slice_copy_short r q m c mo lt =
      let short : wrapping_sub r.tail r.head < m = omega (arith, mo.end, mo.word, mo.room) in
      ground arith

  abbrev pub after_copy : SpscRing A n → ℕ → SpscRing A n
  after_copy r m = record r { head = wrapping_add r.head m }

  pub pop_slice_copy_ok :
      (r : SpscRing A n) (q : List A) (m : ℕ)
      → IsCapacity n
      → Models r q
      → m ≤ length q
      → pop_slice_copy r m ≡ some (ok (take m q), after_copy r m)
  unfolding pop_slice_copy
  pop_slice_copy_ok r q m c mo le = ground (arith, enough, copies)
    where
      enough : m ≤ wrapping_sub r.tail r.head
      enough = omega (arith, mo.end, mo.word, mo.room, c.small)

      copies : read_slots r m 0 ≡ some (take m q)
      copies = read_slots_lem r m 0 q le (
          Holds-ext r.buf (slot n r.head) (λ j. slot n r.head (0 + j)) (map some q)
            (λ j. ap (slot n r.head) (omega arith)) mo.held)

  pub after_copy-Models :
      (r : SpscRing A n) (q : List A) (m : ℕ)
      → IsCapacity n
      → Models r q
      → m ≤ length q
      → Models (after_copy r m) (drop m q)
  after_copy-Models r q m c mo le = record {
    size = mo.size;
    word = omega arith;
    room = omega (arith, mo.room, length-drop m q);
    end = omega (arith, mo.end, mo.word, mo.room, length-drop m q);
    held =
        Holds-ext r.buf (λ i. slot n r.head (m + i)) (slot n (wrapping_add r.head m))
          (map some (drop m q)) (λ i. ap (λ k. k % n) (omega arith))
          (Holds-drop r.buf (slot n r.head) m q mo.held);
  }

  pub drop_ring-Models :
      (r : SpscRing A n) (q : List A) → IsCapacity n → Models r q → drop_ring r ≡ some q
  unfolding drop_ring
  drop_ring-Models r q c m =
      drop_from_lem n r.buf (len r + 1) r.head r.tail q (omega (arith, len-Models r q c m)) m.word
        (omega (arith, m.room, c.small)) m.end m.held
