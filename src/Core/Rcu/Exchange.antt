-- ===== src/Core/Rcu/Exchange.antt =====
-- Every pointer that a handle of crates/riaps-core/src/rcu.rs takes in comes out once.
use blockcat.Prelude.{
  ℕ, ◌+◌, ◌%◌, ◌≡◌, refl, ap, arith, List, [], ◌∷◌, length, count, count-append, count-middle,
  usize_mod,
}
use blockcat.Core.Rcu.{
  RcuHandle, empty, new, load, Step, exchange, count_version, Reachable, start, next,
}

-- How often the pointer `p` is in the handle, or in the hands of a call of `swap`, or given back.
pub accounted : RcuHandle → ℕ → ℕ
accounted s p = count p (s.current ∷ []) + count p s.swapping + count p s.returned

record IsFair (first s : RcuHandle) : Type 0 where
  kept : (p : ℕ) → accounted s p ≡ count p s.published
  counted : s.version ≡ (first.version + length s.returned) % usize_mod

count-cons : (p x : ℕ) (xs : List ℕ) → count p (x ∷ xs) ≡ count p (x ∷ []) + count p xs
count-cons p x xs = count-append p (x ∷ []) xs

Step-IsFair : (first s s' : RcuHandle) → IsFair first s → Step s s' → IsFair first s'
unfolding accounted
Step-IsFair first s s' f (exchange new_ptr ne) = record {
  kept = λ p.
      omega (arith, f.kept p, count-cons p s.current s.swapping, count-cons p new_ptr s.published);
  counted = f.counted;
}
Step-IsFair first s s' f (count_version before old after e) = record {
  kept = λ p. omega (
    arith,
    f.kept p,
    ap (count p) e,
    count-middle p old before after,
    count-append p before after,
    count-cons p old s.returned,
  );
  counted = omega (arith, f.counted);
}

Reachable-IsFair : (first s : RcuHandle) → IsFair first first → Reachable first s → IsFair first s
Reachable-IsFair first s f start = f
Reachable-IsFair first s f (next s₀ s₁ r step) =
    Step-IsFair first s₀ s₁ (Reachable-IsFair first s₀ f r) step

-- A handle as its constructors make it.
pub data IsFirst : RcuHandle → Type 0 where
  from_new : (initial : ℕ) → IsFirst (new initial)
  from_empty : IsFirst empty

first-IsFair : (first : RcuHandle) → IsFirst first → IsFair first first
unfolding accounted new empty count
first-IsFair first (from_new initial) = record { kept = λ p. omega arith; counted = refl }
first-IsFair first from_empty = record { kept = λ p. omega arith; counted = refl }

-- In every state that a handle comes to from `new` or `empty`, whatever the threads that call `swap`:
-- a pointer is as often in the handle, in the hands of a running `swap`, or given back by a finished
-- one, as it was published; the version has gone up by the number of finished swaps, modulo 2^64;
-- and where no `swap` is running, all that was published is given back but the pointer that `load`
-- gives.
pub swap_returns_once :
    (first s : RcuHandle)
    → IsFirst first
    → Reachable first s
    → ((p : ℕ) → accounted s p ≡ count p s.published)
      × (s.version ≡ (first.version + length s.returned) % usize_mod)
      × (s.swapping ≡ [] → (p : ℕ) → count p s.published ≡ count p (load s ∷ s.returned))
unfolding accounted load count
swap_returns_once first s i r =
    let f = Reachable-IsFair first s (first-IsFair first i) r in
    (
      f.kept,
      f.counted,
      λ e p. omega (arith, f.kept p, ap (count p) e, count-cons p s.current s.returned),
    )
