-- ===== src/Core/Spsc/Steps.antt =====
-- The ring of crates/riaps-core/src/spsc.rs against the bounded queue of `Core.Queue`, one
-- call at a time.

use blockcat.Prelude.{
  add-mod-ne, ℕ, subst, suc, ◌+◌, ◌-◌, ◌%◌, ◌≤◌, ◌<◌, ◌≡◌, ◌≢◌, ◌∙◌, sym, ap, arith, some, List, [],
  ◌∷◌, ◌++◌, ok, err, length, take, drop, length-drop, length-append, usize_mod, inl, inr, dec_lt,
  ℕ_discrete,
}
use blockcat.Core.Queue
use blockcat.Core.Spsc.Calls.{step, pushes, IsSound}
use blockcat.Core.Queue.{Op, Reply, pushed, popped, copied, count}
use blockcat.Core.Spsc.{SpscRing, insufficient_data, capacity_left}
use blockcat.Core.Spsc.Layout.{slot, slot-ne_of_dvd}
use blockcat.Core.Spsc.Models.{
  IsCapacity, Models, len-Models, push_full, push_ok, after_push, after_push-Models, pop_empty,
  pop-some, after_pop, after_pop-Models,
}
use blockcat.Core.Spsc.Batch.{
  pop_slice_copy_short, pop_slice_copy_ok, after_copy, after_copy-Models,
}

slot-ne :
    (n head i j : ℕ) → IsSound n (head + j) 1 → i < j → j < n + i → slot n head j ≢ slot n head i
slot-ne n head i j (inl d) lt near e = slot-ne_of_dvd n head i j d lt near e
slot-ne n head i j (inr fits) lt near e =
    add-mod-ne n (head + i) (j - i) (omega arith) (omega arith)
      (ap (λ k. k % n) (omega arith) ∙ e ∙ ap (λ k. k % n) (omega arith))

pub IsSound-after :
    (n tail tail' k k' : ℕ)
    → IsSound n tail k
    → (tail + k ≤ usize_mod → tail' + k' ≤ usize_mod)
    → IsSound n tail' k'
IsSound-after n tail tail' k k' (inl d) f = inl d
IsSound-after n tail tail' k k' (inr h) f = inr (f h)

module _ {ℓ} {A : Type ℓ} (n : ℕ) where
  step-push_full :
      (q : List A) (v : A) → length q ≡ n → Queue.step n q (Op.push v) ≡ (pushed (err v), q)
  unfolding Queue.step
  step-push_full q v e = ground arith

  step-push_ok :
      (q : List A) (v : A)
      → length q < n
      → Queue.step n q (Op.push v) ≡ (pushed (ok tt), q ++ (v ∷ []))
  unfolding Queue.step
  step-push_ok q v lt = let ne : length q ≢ n = omega arith in ground arith

  step-copy_short :
      (q : List A) (m : ℕ)
      → length q < m
      → Queue.step n q (Op.pop_slice_copy m) ≡ (copied (err insufficient_data), q)
  unfolding Queue.step
  step-copy_short [] m lt = ground arith
  step-copy_short (x ∷ q) m lt = ground arith

  step-copy_ok :
      (q : List A) (m : ℕ)
      → m ≤ length q
      → Queue.step n q (Op.pop_slice_copy m) ≡ (copied (ok (take m q)), drop m q)
  unfolding Queue.step
  step-copy_ok [] m le = ground arith
  step-copy_ok (x ∷ q) m le = ground arith

module _ {ℓ} {A : Type ℓ} {n : ℕ} where
  pub push-Models :
      (r : SpscRing A n) (q : List A) (v : A) (k : ℕ)
      → IsCapacity n
      → Models r q
      → IsSound n (r.head + length q) (suc k)
      → length q < n
      → Models (after_push r v) (q ++ (v ∷ [])) × IsSound n (r.head + length (q ++ (v ∷ []))) k
  push-Models r q v k c m s lt =
      let room : IsSound n (r.head + length q) 1 =
        IsSound-after n (r.head + length q) (r.head + length q) (suc k) 1 s (λ h. omega arith) in
      (
        after_push-Models r q v c m lt
            (λ i below. slot-ne n r.head i (length q) room below (omega arith)),
        IsSound-after n (r.head + length q) (r.head + length (q ++ (v ∷ []))) (suc k) k s
            (λ h. omega (arith, length-append q (v ∷ []))),
      )

  pub pop-Models :
      (r : SpscRing A n) (x : A) (q : List A) (k : ℕ)
      → IsCapacity n
      → Models r (x ∷ q)
      → IsSound n (r.head + length (x ∷ q)) k
      → Models (after_pop r) q × IsSound n ((r.head + 1) % usize_mod + length q) k
  pop-Models r x q k c m s = (
    after_pop-Models r x q c m apart,
    IsSound-after n (r.head + suc (length q)) ((r.head + 1) % usize_mod + length q) k k s
        (λ h. omega arith),
  )
    where
      apart : (i : ℕ) → i < length q → r.head % n ≢ slot n r.head (suc i)
      apart i lt e =
          slot-ne n r.head 0 (suc i)
            (IsSound-after n (r.head + suc (length q)) (r.head + suc i) k 1 s (λ h. omega arith))
            (omega arith) (omega (arith, m.room)) (sym e ∙ ap (λ j. j % n) (omega (arith, m.word)))

  -- The call returns the reply and leaves the ring holding the queue of `result`, with `k` pushes
  -- still to come.
  abbrev Refines : SpscRing A n → Op A → ℕ → Reply A × List A → Type ℓ
  Refines r op k result =
      (r' : SpscRing A n) × (step r op ≡ some (result.0, r'))
      × Models r' result.1
      × IsSound n (r'.head + length result.1) k

  push-Refines :
      (r : SpscRing A n) (q : List A) (v : A) (k : ℕ)
      → IsCapacity n
      → Models r q
      → IsSound n (r.head + length q) (suc k)
      → Refines r (Op.push v) k (Queue.step n q (Op.push v))
  unfolding step
  push-Refines r q v k c m s = elim (ℕ_discrete (length q) n) [
    | yes e ↦ subst (Refines r (Op.push v) k) (sym (step-push_full n q v e)) (
      r,
      ground (arith, push_full r q v c m e),
      m,
      IsSound-after n (r.head + length q) (r.head + length q) (suc k) k s (λ h. omega arith),
    )
    | no ne ↦
        let lt : length q < n = omega (arith, m.room) in
        subst (Refines r (Op.push v) k) (sym (step-push_ok n q v lt)) (
          let (m', s') = push-Models r q v k c m s lt in
          (after_push r v, ground (arith, push_ok r q v c m lt), m', s'))
  ]

  pop-Refines :
      (r : SpscRing A n) (q : List A) (k : ℕ)
      → IsCapacity n
      → Models r q
      → IsSound n (r.head + length q) k
      → Refines r Op.pop k (Queue.step n q Op.pop)
  unfolding step Queue.step
  pop-Refines r [] k c m s = (r, ground (arith, pop_empty r c m), m, s)
  pop-Refines r (x ∷ q) k c m s =
      let (m', s') = pop-Models r x q k c m s in
      (after_pop r, ground (arith, pop-some r x q c m), m', s')

  len-Refines :
      (r : SpscRing A n) (q : List A) (k : ℕ)
      → IsCapacity n
      → Models r q
      → IsSound n (r.head + length q) k
      → Refines r Op.len k (Queue.step n q Op.len)
  unfolding step Queue.step
  len-Refines r [] k c m s = (r, ground (arith, len-Models r [] c m), m, s)
  len-Refines r (x ∷ q) k c m s = (r, ground (arith, len-Models r (x ∷ q) c m), m, s)

  capacity_left-Refines :
      (r : SpscRing A n) (q : List A) (k : ℕ)
      → IsCapacity n
      → Models r q
      → IsSound n (r.head + length q) k
      → Refines r Op.capacity_left k (Queue.step n q Op.capacity_left)
  unfolding step Queue.step capacity_left
  capacity_left-Refines r [] k c m s = (r, ground (arith, len-Models r [] c m), m, s)
  capacity_left-Refines r (x ∷ q) k c m s = (r, ground (arith, len-Models r (x ∷ q) c m), m, s)

  copy-Refines :
      (r : SpscRing A n) (q : List A) (m k : ℕ)
      → IsCapacity n
      → Models r q
      → IsSound n (r.head + length q) k
      → Refines r (Op.pop_slice_copy m) k (Queue.step n q (Op.pop_slice_copy m))
  unfolding step
  copy-Refines r q m k c mo s = elim (dec_lt (length q) m) [
    | yes lt ↦
        subst (Refines r (Op.pop_slice_copy m) k) (sym (step-copy_short n q m lt))
          (r, ground (arith, pop_slice_copy_short r q m c mo lt), mo, s)
    | no ge ↦
        let le : m ≤ length q = omega arith in
        subst (Refines r (Op.pop_slice_copy m) k) (sym (step-copy_ok n q m le)) (
          after_copy r m,
          ground (arith, pop_slice_copy_ok r q m c mo le),
          after_copy-Models r q m c mo le,
          IsSound-after n (r.head + length q) ((r.head + m) % usize_mod + length (drop m q)) k k s
              (λ h. omega (arith, length-drop m q)),
        )
  ]

  pub step-Refines :
      (r : SpscRing A n) (q : List A) (op : Op A) (ops : List (Op A))
      → IsCapacity n
      → Models r q
      → IsSound n (r.head + length q) (pushes (op ∷ ops))
      → Refines r op (pushes ops) (Queue.step n q op)
  step-Refines r q (Op.push v) ops c m s = push-Refines r q v (pushes ops) c m s
  step-Refines r q Op.pop ops c m s = pop-Refines r q (pushes ops) c m s
  step-Refines r q (Op.pop_slice_copy k) ops c m s = copy-Refines r q k (pushes ops) c m s
  step-Refines r q Op.len ops c m s = len-Refines r q (pushes ops) c m s
  step-Refines r q Op.capacity_left ops c m s = capacity_left-Refines r q (pushes ops) c m s
