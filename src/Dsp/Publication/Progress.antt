-- ===== src/Dsp/Publication/Progress.antt =====
-- `try_pin` of crates/riaps-dsp/src/graph.rs ends where no graph is swapped in meanwhile, whatever
-- swap is under way.
use blockcat.Prelude.{
  ℕ, suc, ◌≤◌, ◌≡◌, ◌∙◌, refl, sym, ap, arith, ℕ_discrete, Bool, true, false, some, ◌==◌,
}
use blockcat.Dsp.Publication.{
  idle, claimed, loaded, stored, pinned, Publication, goes, Step, claim, refuse, load, store,
  accept, retry, clear, release, swap, retire, keep, reclaim, take_back, forget,
}
use blockcat.Dsp.Publication.Invariant.{goes_same}

-- The step is one of `try_pin`, in thread `i`.
unfoldable pub is_pin : ℕ → (s s' : Publication) → Step s s' → Bool
is_pin i s _ (claim j e off) = j == i
is_pin i s _ (refuse j e on) = j == i
is_pin i s _ (load j e) = j == i
is_pin i s _ (store j p e) = j == i
is_pin i s _ (accept j p e same) = j == i
is_pin i s _ (retry j p e ne) = j == i
is_pin i s _ (clear j p e) = false
is_pin i s _ (release j e) = false
is_pin i s _ (swap p free) = false
is_pin i s _ (retire before old after e) = false
is_pin i s _ (keep before t after e h) = false
is_pin i s _ (reclaim before t after e h) = false
is_pin i s _ (take_back before t after e h) = false
is_pin i s _ (forget before t after e) = false

-- Steps of `try_pin` in thread `i` alone, one after another, and how many.
pub data Run (i : ℕ) : Publication → ℕ → Publication → Type 0 where
  stay : (s : Publication) → Run i s 0 s
  go :
      (s t u : Publication) (k : ℕ) (step : Step s t)
      → is_pin i s t step ≡ true
      → Run i t k u
      → Run i s (suc k) u

-- What `try_pin` leaves to the control plane.
pub record IsUntouched (s s' : Publication) : Type 0 where
  pub current : s'.current ≡ s.current
  pub version : s'.version ≡ s.version
  pub swapping : s'.swapping ≡ s.swapping
  pub tokens : s'.tokens ≡ s.tokens

-- At most `most` steps of `try_pin` in thread `i` alone lead to where it holds a guard on the current
-- graph, with the hazard set.
pub Pins : Publication → ℕ → ℕ → Type 0
Pins s i most =
    (k : ℕ) × (s' : Publication) × Run i s k s'
    × (k ≤ most)
    × (s'.readers i ≡ pinned s.current)
    × (s'.hazard ≡ some s.current)
    × IsUntouched s s'

same_thread : (i : ℕ) → (i == i) ≡ true
same_thread i = ground arith

-- After a step that leaves the control plane alone.
Pins-after :
    (s t : Publication) (i most : ℕ) (step : Step s t)
    → is_pin i s t step ≡ true
    → IsUntouched s t
    → Pins t i most
    → Pins s i (suc most)
unfolding Pins
Pins-after s t i most step mine u (k, s', run, few, at, hazard, u') = (
  suc k,
  s',
  go s t s' k step mine run,
  omega (arith, few),
  at ∙ ap pinned u.current,
  hazard ∙ ap some u.current,
  record {
    current = u'.current ∙ u.current;
    version = u'.version ∙ u.version;
    swapping = u'.swapping ∙ u.swapping;
    tokens = u'.tokens ∙ u.tokens;
  },
)

stored-current :
    (s : Publication) (i p : ℕ)
    → s.readers i ≡ stored p
    → s.hazard ≡ some p
    → s.current ≡ p
    → Pins s i 1
unfolding Pins is_pin
stored-current s i p e h same =
    let s' : Publication = record s { readers = goes s.readers i (pinned p) } in
    (
      1,
      s',
      go s s' s' 0 (accept i p e same) (same_thread i) (stay s'),
      omega arith,
      goes_same s.readers i (pinned p) ∙ ap pinned (sym same),
      h ∙ ap some (sym same),
      record { current = refl; version = refl; swapping = refl; tokens = refl },
    )

claimed-Pins : (s : Publication) (i : ℕ) → s.readers i ≡ claimed → Pins s i 3
unfolding is_pin
claimed-Pins s i e =
    let c = s.current in
    let s₁ : Publication = record s { readers = goes s.readers i (loaded c) } in
    let s₂ : Publication = record s₁ { hazard = some c; readers = goes s₁.readers i (stored c) } in
    Pins-after s s₁ i 2 (load i e) (same_thread i)
      (record { current = refl; version = refl; swapping = refl; tokens = refl })
      (Pins-after s₁ s₂ i 1 (store i c (goes_same s.readers i (loaded c))) (same_thread i)
        (record { current = refl; version = refl; swapping = refl; tokens = refl })
        (stored-current s₂ i c (goes_same s₁.readers i (stored c)) refl refl))

few-Pins : (s : Publication) (i few most : ℕ) → few ≤ most → Pins s i few → Pins s i most
unfolding Pins
few-Pins s i few most le (k, s', run, small, at, hazard, u) =
    (k, s', run, omega (arith, le, small), at, hazard, u)

stored-Pins : (s : Publication) (i p : ℕ) → s.readers i ≡ stored p → s.hazard ≡ some p → Pins s i 4
unfolding is_pin
stored-Pins s i p e h = elim (ℕ_discrete s.current p) [
  | yes same ↦ few-Pins s i 1 4 (omega arith) (stored-current s i p e h same)
  | no ne ↦
      let s₁ : Publication = record s { readers = goes s.readers i claimed } in
      Pins-after s s₁ i 3 (retry i p e ne) (same_thread i)
        (record { current = refl; version = refl; swapping = refl; tokens = refl })
        (claimed-Pins s₁ i (goes_same s.readers i claimed))
]

-- Where a thread stands at a point of `try_pin`: at its start, with no other thread in it or holding a
-- guard, or at one of its steps.
pub data IsPinning (s : Publication) (i : ℕ) : Type 0 where
  starts : s.readers i ≡ idle → s.pin_active ≡ false → IsPinning s i
  has_claimed : s.readers i ≡ claimed → IsPinning s i
  has_loaded : (p : ℕ) → s.readers i ≡ loaded p → IsPinning s i
  has_stored : (p : ℕ) → s.readers i ≡ stored p → s.hazard ≡ some p → IsPinning s i

-- From every point of `try_pin`, whatever the graph that the thread has loaded before and whatever
-- swaps are under way, at most five steps of `try_pin` in this thread alone lead to a state in which
-- it holds a guard on the graph that is current at that point, with the hazard set to it, and the
-- current graph, the version, the swaps and the tokens are as they were.
pub try_pin_succeeds : (s : Publication) (i : ℕ) → IsPinning s i → Pins s i 5
unfolding is_pin
try_pin_succeeds s i (starts e off) =
    let s₁ : Publication = record s { pin_active = true; readers = goes s.readers i claimed } in
    few-Pins s i 4 5 (omega arith) (
      Pins-after s s₁ i 3 (claim i e off) (same_thread i)
        (record { current = refl; version = refl; swapping = refl; tokens = refl })
        (claimed-Pins s₁ i (goes_same s.readers i claimed)))
try_pin_succeeds s i (has_claimed e) = few-Pins s i 3 5 (omega arith) (claimed-Pins s i e)
try_pin_succeeds s i (has_loaded p e) =
    let s₁ : Publication = record s { hazard = some p; readers = goes s.readers i (stored p) } in
    Pins-after s s₁ i 4 (store i p e) (same_thread i)
      (record { current = refl; version = refl; swapping = refl; tokens = refl })
      (stored-Pins s₁ i p (goes_same s.readers i (stored p)) refl)
try_pin_succeeds s i (has_stored p e h) = few-Pins s i 4 5 (omega arith) (stored-Pins s i p e h)
