-- ===== src/Prelude/Counts.antt =====
-- How often a number stands in a list.
use Prim.Native.Nat.{ℕ, zero, suc, ◌+◌, ◌≤◌, ◌<◌}
use mathlib.Core.Path.{◌≡◌, ap, ◌∙◌}
use mathlib.Core.List.{List, [], ◌∷◌, ◌++◌}
use native.Mathlib.Omega.{arith}
use native.Mathlib.Decide.{ℕ_discrete, dec_lt}
use blockcat.Prelude.Tests.{◌==◌, if◌then◌else◌}
use blockcat.Prelude.Lists.{length}

unfoldable pub count : ℕ → List ℕ → ℕ
count p [] = 0
count p (x ∷ xs) = (if x == p then 1 else 0) + count p xs

pub count-append : (p : ℕ) (xs ys : List ℕ) → count p (xs ++ ys) ≡ count p xs + count p ys
unfolding count
count-append p [] ys = omega arith
count-append p (x ∷ xs) ys =
    ap (λ k. (if x == p then 1 else 0) + k) (count-append p xs ys) ∙ omega arith

-- Taking one entry out of a list.
pub count-middle :
    (p x : ℕ) (xs ys : List ℕ) → count p (xs ++ (x ∷ ys)) ≡ count p (x ∷ []) + count p (xs ++ ys)
unfolding count
count-middle p x xs ys = omega (arith, count-append p xs (x ∷ ys), count-append p xs ys)

-- All counts of the numbers below `n`, added up.
total : ℕ → List ℕ → ℕ
total zero xs = 0
total (suc n) xs = total n xs + count n xs

total_le : (n : ℕ) (xs : List ℕ) → ((v : ℕ) → v < n → count v xs ≤ 1) → total n xs ≤ n
unfolding total
total_le zero xs h = omega arith
total_le (suc n) xs h = omega (arith, total_le n xs (λ v lt. h v (omega arith)), h n (omega arith))

total_eq : (n : ℕ) (xs : List ℕ) → ((v : ℕ) → v < n → count v xs ≡ 1) → total n xs ≡ n
unfolding total
total_eq zero xs h = omega arith
total_eq (suc n) xs h = omega (arith, total_eq n xs (λ v lt. h v (omega arith)), h n (omega arith))

total-nil : (n : ℕ) → total n [] ≡ 0
unfolding total count
total-nil zero = omega arith
total-nil (suc n) = omega (arith, total-nil n)

total-cons_above : (n x : ℕ) (xs : List ℕ) → n ≤ x → total n (x ∷ xs) ≡ total n xs
unfolding total count
total-cons_above zero x xs h = omega arith
total-cons_above (suc n) x xs h = let rest = total-cons_above n x xs (omega arith) in ground arith

total-cons_below : (n x : ℕ) (xs : List ℕ) → x < n → total n (x ∷ xs) ≡ suc (total n xs)
unfolding total count
total-cons_below zero x xs h = absurd (omega arith)
total-cons_below (suc n) x xs h = elim (ℕ_discrete x n) [
  | yes same ↦ let rest = total-cons_above n x xs (omega arith) in ground arith
  | no ne ↦ let rest = total-cons_below n x xs (omega arith) in ground arith
]

-- Where all entries are below `n`, the length is the sum of the counts.
total-length : (n : ℕ) (xs : List ℕ) → ((v : ℕ) → n ≤ v → count v xs ≡ 0) → total n xs ≡ length xs
unfolding count
total-length n [] h = total-nil n
total-length n (x ∷ xs) h = elim (dec_lt x n) [
  | yes lt ↦ omega (
    arith,
    total-cons_below n x xs lt,
    total-length n xs (λ v le. let e = h v le in ground arith),
  )
  | no ge ↦ absurd (let e = h x (omega arith) in ground arith)
]

-- A list without repetition of numbers below `n` has `n` entries at most, and `n` where none is
-- missing.
pub length-count_le :
    (n : ℕ) (xs : List ℕ)
    → ((v : ℕ) → count v xs ≤ 1)
    → ((v : ℕ) → n ≤ v → count v xs ≡ 0)
    → length xs ≤ n
length-count_le n xs once below =
    omega (arith, total-length n xs below, total_le n xs (λ v lt. once v))

pub length-count_eq :
    (n : ℕ) (xs : List ℕ)
    → ((v : ℕ) → v < n → count v xs ≡ 1)
    → ((v : ℕ) → n ≤ v → count v xs ≡ 0)
    → length xs ≡ n
length-count_eq n xs all below = omega (arith, total-length n xs below, total_eq n xs all)

-- Where one is missing, there are fewer.
total_lt :
    (n v : ℕ) (xs : List ℕ) → ((u : ℕ) → count u xs ≤ 1) → v < n → count v xs ≡ 0 → total n xs < n
unfolding total
total_lt zero v xs once lt e = absurd (omega arith)
total_lt (suc n) v xs once lt e = elim (ℕ_discrete v n) [
  | yes same ↦
      let here = total_le n xs (λ u _. once u) in
      let gone : count n xs ≡ 0 = ap (λ k. count k xs) (omega arith) ∙ e in omega arith
  | no ne ↦ omega (arith, total_lt n v xs once (omega arith) e, once n)
]

pub length-count_full :
    (n : ℕ) (xs : List ℕ)
    → ((v : ℕ) → count v xs ≤ 1)
    → ((v : ℕ) → n ≤ v → count v xs ≡ 0)
    → length xs ≡ n
    → (v : ℕ) → v < n
    → count v xs ≡ 1
length-count_full n xs once below full v lt = elim (ℕ_discrete (count v xs) 0) [
  | yes e ↦ absurd (omega (arith, total_lt n v xs once lt e, total-length n xs below))
  | no ne ↦ omega (arith, once v)
]
