-- ===== src/Core/Rcu/Tests.antt =====
-- Two overlapping swaps on a handle, and the theorem on its pointers at that state.
use blockcat.Prelude.{ℕ, ◌+◌, ◌%◌, ◌≡◌, refl, arith, [], ◌∷◌, count, usize_mod}
use blockcat.Core.Rcu.{RcuHandle, new, load, exchange, count_version, Reachable, start, next}
use blockcat.Core.Rcu.Exchange.{accounted, from_new, swap_returns_once}

-- The second swap is over, the first one has yet to count.
abbrev overlapping : RcuHandle
overlapping = record {
  current = 32;
  version = 2;
  swapping = 8 ∷ [];
  published = 32 ∷ 16 ∷ 8 ∷ [];
  returned = 16 ∷ [];
}

overlapping-Reachable : Reachable (new 8) overlapping
unfolding new
overlapping-Reachable =
    let s₁ : RcuHandle = record (new 8) {
      current = 16;
      swapping = 8 ∷ [];
      published = 16 ∷ 8 ∷ [];
    } in
    let s₂ : RcuHandle = record s₁ {
      current = 32;
      swapping = 16 ∷ 8 ∷ [];
      published = 32 ∷ 16 ∷ 8 ∷ [];
    } in
    let r₁ : Reachable (new 8) s₁ = next (new 8) s₁ start (exchange 16 (λ e. omega (arith, e))) in
    let r₂ : Reachable (new 8) s₂ = next s₁ s₂ r₁ (exchange 32 (λ e. omega (arith, e))) in
    next s₂ overlapping r₂ (count_version [] 16 (8 ∷ []) refl)

swap_returns_once_example :
    ((p : ℕ) → accounted overlapping p ≡ count p (32 ∷ 16 ∷ 8 ∷ []))
    × (2 ≡ ((new 8).version + 1) % usize_mod)
    × (overlapping.swapping ≡ []
        → (p : ℕ) → count p (32 ∷ 16 ∷ 8 ∷ []) ≡ count p (load overlapping ∷ (16 ∷ [])))
swap_returns_once_example = swap_returns_once (new 8) overlapping (from_new 8) overlapping-Reachable
