-- ===== src/Core/Spsc/Models.antt =====
-- When a ring holds a queue, and that `push`, `pop` and `pop_slice_copy` act on the queue.
use mathlib.Core.List.{map-append}
use blockcat.Prelude.{
  ℕ, subst, suc, ◌-◌, ◌%◌, ◌≤◌, ◌<◌, ◌≡◌, ◌≢◌, ◌∙◌, sym, ap, arith, Option, none, some, List, [],
  ◌∷◌, ◌++◌, map, ok, err, length, get_elem?, set, length-set, length-map, length-append, usize_mod,
  wrapping_add, wrapping_sub, Holds, Holds-ext, Holds-set, Holds-push,
}
use blockcat.Core.Spsc.{SpscRing, len, capacity_left, push, pop}
use blockcat.Core.Spsc.Layout.{slot, slot-suc}

pub record IsCapacity (n : ℕ) : Type 0 where
  pub positive : 0 < n
  pub small : n < usize_mod

module _ {ℓ} {A : Type ℓ} {n : ℕ} where
  -- The ring holds the queue `q`, oldest item first.
  pub record Models (r : SpscRing A n) (q : List A) : Type ℓ where
    pub size : length r.buf ≡ n
    pub word : r.head < usize_mod
    pub room : length q ≤ n
    pub end : r.tail ≡ wrapping_add r.head (length q)
    pub held : Holds r.buf (slot n r.head) (map some q)

  pub len-Models : (r : SpscRing A n) (q : List A) → IsCapacity n → Models r q → len r ≡ length q
  unfolding len
  len-Models r q c m = omega arith

  pub capacity_left-Models :
      (r : SpscRing A n) (q : List A) → IsCapacity n → Models r q → capacity_left r ≡ n - length q
  unfolding capacity_left
  capacity_left-Models r q c m = omega (arith, len-Models r q c m, m.room)

  pub tail-Models :
      (r : SpscRing A n) (q : List A) → Models r q → r.tail % n ≡ slot n r.head (length q)
  tail-Models r q m = ap (λ k. k % n) m.end

  -- The oldest item stands in the slot that `head` names.
  slot-zero : (r : SpscRing A n) (q : List A) → Models r q → slot n r.head 0 ≡ r.head % n
  slot-zero r q m = ap (λ k. k % n) (omega (arith, m.word))

  oldest :
      (r : SpscRing A n) (x : A) (q : List A)
      → Models r (x ∷ q)
      → get_elem? r.buf (r.head % n) ≡ some (some x)
  oldest r x q m = subst (λ i. get_elem? r.buf i ≡ some (some x)) (slot-zero r (x ∷ q) m) m.held.0

  -- The next slot is none of the slots in use.
  abbrev pub IsClear : SpscRing A n → List A → Type 0
  IsClear r q = (i : ℕ) → i < length q → slot n r.head (length q) ≢ slot n r.head i

  pub push_full :
      (r : SpscRing A n) (q : List A) (v : A)
      → IsCapacity n
      → Models r q
      → length q ≡ n
      → push r v ≡ (err v, r)
  unfolding push
  push_full r q v c m e = let e' : wrapping_sub r.tail r.head ≡ n = omega arith in ground arith

  abbrev pub after_push : SpscRing A n → A → SpscRing A n
  after_push r v = record r { buf = set r.buf (r.tail % n) (some v); tail = wrapping_add r.tail 1 }

  pub push_ok :
      (r : SpscRing A n) (q : List A) (v : A)
      → IsCapacity n
      → Models r q
      → length q < n
      → push r v ≡ (ok tt, after_push r v)
  unfolding push
  push_ok r q v c m lt = let ne : wrapping_sub r.tail r.head ≢ n = omega arith in ground arith

  pub after_push-Models :
      (r : SpscRing A n) (q : List A) (v : A)
      → IsCapacity n
      → Models r q
      → length q < n
      → IsClear r q
      → Models (after_push r v) (q ++ (v ∷ []))
  after_push-Models r q v c m lt clear = record {
    size = length-set r.buf (r.tail % n) (some v) ∙ m.size;
    word = m.word;
    room = omega (arith, length-append q (v ∷ []));
    end = omega (arith, length-append q (v ∷ []));
    held =
        rw (map-append, at)
          (Holds-push r.buf (slot n r.head) (map some q) (some v) (in_range (map some q)) apart
            m.held);
  }
    where
      at : r.tail % n ≡ slot n r.head (length (map some q))
      at = tail-Models r q m ∙ ap (slot n r.head) (sym (length-map some q))

      in_range : (p : List (Option A)) → slot n r.head (length p) < length r.buf
      in_range p = omega (arith, m.size, c.positive)

      apart :
          (i : ℕ) → i < length (map some q) → slot n r.head (length (map some q)) ≢ slot n r.head i
      apart = rw (length-map some q) clear

  pub pop_empty : (r : SpscRing A n) → IsCapacity n → Models r [] → pop r ≡ some (none, r)
  unfolding pop
  pop_empty r c m = let e : r.tail ≡ r.head = omega arith in ground arith

  abbrev pub after_pop : SpscRing A n → SpscRing A n
  after_pop r = record r { buf = set r.buf (r.head % n) none; head = wrapping_add r.head 1 }

  pub pop-some :
      (r : SpscRing A n) (x : A) (q : List A)
      → IsCapacity n
      → Models r (x ∷ q)
      → pop r ≡ some (some x, after_pop r)
  unfolding pop
  pop-some r x q c m = let e : r.tail ≢ r.head = omega arith in ground (arith, oldest r x q m)

  pub after_pop-Models :
      (r : SpscRing A n) (x : A) (q : List A)
      → IsCapacity n
      → Models r (x ∷ q)
      → ((i : ℕ) → i < length q → r.head % n ≢ slot n r.head (suc i))
      → Models (after_pop r) q
  after_pop-Models r x q c m clear = record {
    size = length-set r.buf (r.head % n) none ∙ m.size;
    word = omega arith;
    room = omega (arith, m.room);
    end = omega (arith, m.end, m.word);
    held =
        Holds-ext _ (λ i. slot n r.head (suc i)) (slot n (wrapping_add r.head 1)) (map some q)
          (slot-suc n r.head)
          (Holds-set r.buf (λ i. slot n r.head (suc i)) (map some q) (r.head % n) none
            (rw (length-map some q) clear) m.held.1);
  }
