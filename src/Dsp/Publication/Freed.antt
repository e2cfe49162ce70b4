-- ===== src/Dsp/Publication/Freed.antt =====
-- What becomes of the graphs that a handle of crates/riaps-dsp/src/graph.rs is given.
use blockcat.Prelude.{
  ℕ, ◌+◌, ◌≡◌, ◌≢◌, ◌∙◌, Bool-cases, inl, inr, ◌>>◌, assert, refl, ap, arith, ℕ_discrete, true,
  false, not, some, List, [], ◌∷◌, ◌==◌, if◌then◌else◌, wrapping_add, count,
}
use blockcat.Dsp.Publication.{
  Reader, idle, claimed, loaded, stored, pinned, cleared, goes, Publication, held, pointers, new,
  drop, Step, claim, refuse, load, store, accept, retry, clear, release, swap, retire, keep,
  reclaim, take_back, forget, Reachable, start, next,
}
use blockcat.Dsp.Publication.Invariant.{is_idle, goes_same}
use blockcat.Dsp.Publication.Safety.{held-swap, held-retire, held-reclaim, held-forget}

-- What was given is held, freed or handed back.
abbrev IsFair : Publication → Type 0
IsFair s = (p : ℕ) → count p s.given ≡ held s p + count p s.freed + count p s.returned

Step-IsFair : (s s' : Publication) → IsFair s → Step s s' → IsFair s'
unfolding count
Step-IsFair s s' f (claim i e off) = f
Step-IsFair s s' f (refuse i e on) = f
Step-IsFair s s' f (load i e) = f
Step-IsFair s s' f (store i p e) = f
Step-IsFair s s' f (accept i p e same) = f
Step-IsFair s s' f (retry i p e ne) = f
Step-IsFair s s' f (clear i p e) = f
Step-IsFair s s' f (release i e) = f
Step-IsFair s s' f (swap p e) = λ q. omega (arith, f q, held-swap s q p)
Step-IsFair s s' f (retire before old after e) = λ q. omega (
  arith,
  f q,
  held-retire s q before old after (wrapping_add s.version 1) (wrapping_add s.version 1) e,
)
Step-IsFair s s' f (keep before t after e h) = f
Step-IsFair s s' f (reclaim before t after e h) =
    λ q. omega (arith, f q, held-reclaim s q before t after e)
Step-IsFair s s' f (take_back before t after e h) =
    λ q. omega (arith, f q, held-reclaim s q before t after e)
Step-IsFair s s' f (forget before t after e) =
    λ q. omega (arith, f q, held-forget s q before t after e)

Reachable-IsFair : (initial : ℕ) (s : Publication) → Reachable initial s → IsFair s
unfolding new count
Reachable-IsFair initial s start = λ q. omega arith
Reachable-IsFair initial s (next s₀ s₁ r step) =
    Step-IsFair s₀ s₁ (Reachable-IsFair initial s₀ r) step

-- Where the pin is taken, a thread is in `try_pin` or has a guard.
abbrev HasPinner : Publication → Type 0
HasPinner s = s.pin_active ≡ true → (i : ℕ) × (is_idle (s.readers i) ≡ false)

-- Thread `i` is that thread.
here :
    (readers : ℕ → Reader) (i : ℕ) (r : Reader)
    → is_idle r ≡ false
    → (j : ℕ) × (is_idle (goes readers i r j) ≡ false)
here readers i r e = (i, ap is_idle (goes_same readers i r) ∙ e)

Step-HasPinner : (s s' : Publication) → HasPinner s → Step s s' → HasPinner s'
unfolding is_idle
Step-HasPinner s s' h (claim i e off) = λ on. here s.readers i claimed refl
Step-HasPinner s s' h (refuse i e on) = h
Step-HasPinner s s' h (load i e) = λ on. here s.readers i (loaded s.current) refl
Step-HasPinner s s' h (store i p e) = λ on. here s.readers i (stored p) refl
Step-HasPinner s s' h (accept i p e same) = λ on. here s.readers i (pinned p) refl
Step-HasPinner s s' h (retry i p e ne) = λ on. here s.readers i claimed refl
Step-HasPinner s s' h (clear i p e) = λ on. here s.readers i cleared refl
Step-HasPinner s s' h (release i e) = λ on. absurd (ground (arith, on))
Step-HasPinner s s' h (swap p e) = h
Step-HasPinner s s' h (retire before old after e) = h
Step-HasPinner s s' h (keep before t after e ne) = h
Step-HasPinner s s' h (reclaim before t after e ne) = h
Step-HasPinner s s' h (take_back before t after e ne) = h
Step-HasPinner s s' h (forget before t after e) = h

Reachable-HasPinner : (initial : ℕ) (s : Publication) → Reachable initial s → HasPinner s
unfolding new
Reachable-HasPinner initial s start = λ on. absurd (ground (arith, on))
Reachable-HasPinner initial s (next s₀ s₁ r step) =
    Step-HasPinner s₀ s₁ (Reachable-HasPinner initial s₀ r) step

-- Where every thread is outside of `try_pin` and has no guard, the pin is free.
unpinned : (s : Publication) → HasPinner s → ((i : ℕ) → s.readers i ≡ idle) → s.pin_active ≡ false
unfolding is_idle
unpinned s h quiet = elim (Bool-cases s.pin_active) [
  | inl on ↦ absurd (let (i, busy) = h on in let same = ap is_idle (quiet i) in ground arith)
  | inr off ↦ off
]

held_current :
    (s : Publication) (p : ℕ)
    → s.swapping ≡ []
    → s.tokens ≡ []
    → held s p ≡ count p (s.current ∷ []) + count p s.leaked
unfolding count
held_current s p e e' = omega (arith, ap (count p) e, ap (λ ts. count p (pointers ts)) e')

not_null : (c p : ℕ) → p ≢ 0 → count p (if c == 0 then [] else c ∷ []) ≡ count p (c ∷ [])
unfolding count
not_null c p ne = elim (ℕ_discrete c 0) [
  | yes null ↦
      let t : (c == 0) ≡ true = ground arith in
      let other : (c == p) ≡ false = ground arith in rw (t, other) refl
  | no real ↦ let t : (c == 0) ≡ false = ground arith in rw t refl
]

-- In every state that a handle comes to, a graph was given as often as it is held, was freed, and was
-- handed back in a box. Where no swap is running, no token is left, and every thread is outside of
-- `try_pin` and has no guard, the drop of the state does not fail its assertion; and every graph that
-- was given, at an address that is not null, is then freed, by its token or by the drop, handed back,
-- or leaked by the drop of its token, as often in all as it was given.
pub graphs_freed_once :
    (initial : ℕ) (s : Publication)
    → Reachable initial s
    → ((p : ℕ) → count p s.given ≡ held s p + count p s.freed + count p s.returned)
      × (s.swapping ≡ []
          → s.tokens ≡ []
          → ((i : ℕ) → s.readers i ≡ idle)
          → (last : List ℕ) × (drop s ≡ some last)
            × ((p : ℕ)
                → p ≢ 0
                → count p s.given
                  ≡ count p s.freed + count p last + count p s.returned + count p s.leaked))
unfolding drop
graphs_freed_once initial s r = (
  Reachable-IsFair initial s r,
  λ none_swapping no_token quiet.
      let f = Reachable-IsFair initial s r in
      let off = unpinned s (Reachable-HasPinner initial s r) quiet in
      (
        if s.current == 0 then [] else s.current ∷ [],
        ap (λ b. (assert (not b)) >> some (if s.current == 0 then [] else s.current ∷ [])) off,
        λ p ne.
            let all : held s p ≡ count p (s.current ∷ []) + count p s.leaked =
              held_current s p none_swapping no_token in
            omega (arith, f p, all, not_null s.current p ne),
      ),
)
