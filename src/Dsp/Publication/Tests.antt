-- ===== src/Dsp/Publication/Tests.antt =====
-- A run of a handle: a graph is pinned, then replaced, and its token is refused.
use blockcat.Prelude.{
  ℕ, ◌+◌, ◌≡◌, ◌≢◌, ◌==◌, Bool-cases, inl, inr, refl, arith, List, true, false, none, some, [], ◌∷◌,
  count,
}
use blockcat.Dsp.Publication.{
  idle, claimed, loaded, stored, pinned, cleared, Publication, goes, held, new, drop, clear,
  release, reclaim, take_back, forget, claim, load, store, accept, swap, retire, keep, Reachable,
  start, next,
}
use blockcat.Dsp.Publication.Progress.{Pins, has_loaded, try_pin_succeeds}
use blockcat.Dsp.Publication.Freed.{graphs_freed_once}
use blockcat.Dsp.Publication.Safety.{pinned_is_protected}

-- Thread 3 pins the graph at 16.
abbrev in_use : Publication
in_use = record {
  current = 16;
  version = 1;
  hazard = some 16;
  pin_active = true;
  readers =
      goes (goes (goes (goes (λ i. idle) 3 claimed) 3 (loaded 16)) 3 (stored 16)) 3 (pinned 16);
  swapping = [];
  tokens = [];
  given = 16 ∷ [];
  freed = [];
  returned = [];
  leaked = [];
}

in_use-Reachable : Reachable 16 in_use
unfolding new
in_use-Reachable =
    next _ in_use
      (next _ _ (next _ _ (next _ _ start (claim 3 refl refl)) (load 3 refl)) (store 3 16 refl))
      (accept 3 16 refl refl)

-- The graph at 32 replaces it; its token waits.
abbrev replaced : Publication
replaced = record in_use {
  current = 32;
  version = 2;
  tokens = record { pointer = 16; retired_at_version = 2 } ∷ [];
  given = 32 ∷ 16 ∷ [];
  freed = [];
  returned = [];
  leaked = [];
}

replaced-Reachable : Reachable 16 replaced
unfolding count
replaced-Reachable =
    next _ replaced
      (next _ replaced (next _ _ in_use-Reachable (swap 32 refl)) (retire [] 16 [] refl))
      (keep [] (record { pointer = 16; retired_at_version = 2 }) [] refl refl)

pinned_is_protected_example :
    (held replaced 16 ≡ 1)
    × (replaced.hazard ≡ some 16)
    × ((j : ℕ) → j ≢ 3 → replaced.readers j ≡ idle)
pinned_is_protected_example = pinned_is_protected 16 replaced 3 16 replaced-Reachable refl

-- Thread 5 has loaded the graph at 16, and the graph at 32 has replaced it since.
abbrev late : Publication
late = record {
  current = 32;
  version = 2;
  hazard = none;
  pin_active = true;
  readers = goes (λ i. idle) 5 (loaded 16);
  swapping = [];
  tokens = record { pointer = 16; retired_at_version = 2 } ∷ [];
  given = 32 ∷ 16 ∷ [];
  freed = [];
  returned = [];
  leaked = [];
}

try_pin_succeeds_example : Pins late 5 5
try_pin_succeeds_example = try_pin_succeeds late 5 (has_loaded 16 refl)

-- The guard of thread 3 is dropped, and the token reclaimed.
abbrev unused : Publication
unused = record {
  current = 32;
  version = 2;
  hazard = none;
  pin_active = false;
  readers = goes (goes replaced.readers 3 cleared) 3 idle;
  swapping = [];
  tokens = [];
  given = 32 ∷ 16 ∷ [];
  freed = 16 ∷ [];
  returned = [];
  leaked = [];
}

unused-Reachable : Reachable 16 unused
unused-Reachable =
    next _ unused (next _ _ (next _ _ replaced-Reachable (clear 3 16 refl)) (release 3 refl)) (
      reclaim [] (record { pointer = 16; retired_at_version = 2 }) [] refl
        (λ e. absurd (ground (arith, e))))

-- The graph at 48 replaces the one at 32, whose token is dropped; the one at 16 is given again, and
-- the one at 48 is taken back.
abbrev finished : Publication
finished = record unused {
  current = 16;
  version = 4;
  given = 16 ∷ 48 ∷ 32 ∷ 16 ∷ [];
  returned = 48 ∷ [];
  leaked = 32 ∷ [];
}

finished-Reachable : Reachable 16 finished
unfolding count
finished-Reachable =
    let r₁ = next _ _ (next _ _ unused-Reachable (swap 48 refl)) (retire [] 32 [] refl) in
    let r₂ = next _ _ r₁ (forget [] (record { pointer = 32; retired_at_version = 3 }) [] refl) in
    let r₃ = next _ _ (next _ _ r₂ (swap 16 refl)) (retire [] 48 [] refl) in
    next _ finished r₃ (
      take_back [] (record { pointer = 48; retired_at_version = 4 }) [] refl
        (λ e. absurd (ground (arith, e))))

-- No thread is in `try_pin` or has a guard, so that the second part of the theorem applies.
finished_idle : (i : ℕ) → finished.readers i ≡ idle
finished_idle i = elim (Bool-cases (i == 3)) [ inl e ↦ rw e refl | inr e ↦ rw e refl ]

graphs_freed_once_example :
    ((p : ℕ)
      → count p finished.given
        ≡ held finished p + count p finished.freed + count p finished.returned)
    × (finished.swapping ≡ []
        → finished.tokens ≡ []
        → ((i : ℕ) → finished.readers i ≡ idle)
        → (last : List ℕ) × (drop finished ≡ some last)
          × ((p : ℕ)
              → p ≢ 0
              → count p finished.given
                ≡ count p finished.freed
                  + count p last
                  + count p finished.returned
                  + count p finished.leaked))
graphs_freed_once_example = graphs_freed_once 16 finished finished-Reachable
