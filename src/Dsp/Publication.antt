-- ===== src/Dsp/Publication.antt =====
-- The publication of graphs in crates/riaps-dsp/src/graph.rs: `DspGraphHandle`, its read guard and
-- the tokens of retired graphs, as interleaved atomic steps of any number of threads. Every atomic
-- operation is one step, and the steps are sequentially consistent. A graph is its address; a graph
-- that is not held here may have its address used again.
pub mod Invariant
pub mod Safety
pub mod Progress
pub mod Freed
mod Tests
use blockcat.Prelude.{
  ℕ, zero, suc, ◌+◌, ◌≡◌, ◌≢◌, Bool, true, false, Option, none, some, List, [], ◌∷◌, ◌++◌, map,
  ◌==◌, not, assert, ◌>>◌, if◌then◌else◌, wrapping_add, count,
}

-- Where a thread stands in `try_pin`, between `try_pin` and the drop of its guard, or in that drop.
pub data Reader : Type 0 where
  idle : Reader
  claimed : Reader
  loaded : (pointer : ℕ) → Reader
  stored : (pointer : ℕ) → Reader
  pinned : (pointer : ℕ) → Reader
  cleared : Reader

pub record RetiredDspGraph : Type 0 where
  pub pointer : ℕ
  pub retired_at_version : ℕ

-- `PublicationState`, the readers, the calls of `swap` that have exchanged the pointer but not yet
-- counted the version (each with its local `old`), and the tokens. The last four fields record the
-- graphs that the handle was given, those that are freed, those that a caller got back in a box, and
-- those whose token was dropped, which leak. No test of a step reads them but that of `swap`.
pub record Publication : Type 0 where
  pub current : ℕ
  pub version : ℕ
  pub hazard : Option ℕ
  pub pin_active : Bool
  pub readers : ℕ → Reader
  pub swapping : List ℕ
  pub tokens : List RetiredDspGraph
  pub given : List ℕ
  pub freed : List ℕ
  pub returned : List ℕ
  pub leaked : List ℕ

-- Thread `i` moves on to `r`.
abbrev pub goes : (ℕ → Reader) → ℕ → Reader → ℕ → Reader
goes readers i r j = if j == i then r else readers j

abbrev pub pointers : List RetiredDspGraph → List ℕ
pointers tokens = map (λ t. t.pointer) tokens

-- How often the graph at `p` is held: published, about to be retired, retired, or leaked.
abbrev pub held : Publication → ℕ → ℕ
held s p = count p (s.current ∷ s.swapping) + count p (pointers s.tokens) + count p s.leaked

-- `DspGraphHandle::new`
pub new : ℕ → Publication
new initial = record {
  current = initial;
  version = 1;
  hazard = none;
  pin_active = false;
  readers = λ i. idle;
  swapping = [];
  tokens = [];
  given = initial ∷ [];
  freed = [];
  returned = [];
  leaked = [];
}

-- The drop of `PublicationState`: the graphs that it frees, or `none` where its assertion fails.
pub drop : Publication → Option (List ℕ)
drop s = do assert (not s.pin_active); some (if s.current == 0 then [] else s.current ∷ [])

pub data Step (s : Publication) : Publication → Type 0 where
  -- The compare-exchange of `try_pin`, and its failure, which returns `None`.
  claim :
      (i : ℕ)
      → s.readers i ≡ idle
      → s.pin_active ≡ false
      → Step s (record s { pin_active = true; readers = goes s.readers i claimed })
  refuse : (i : ℕ) → s.readers i ≡ idle → s.pin_active ≡ true → Step s s
  -- One round of the loop: `current` is loaded, the hazard stored, and `current` loaded again.
  load :
      (i : ℕ)
      → s.readers i ≡ claimed
      → Step s (record s { readers = goes s.readers i (loaded s.current) })
  store :
      (i p : ℕ)
      → s.readers i ≡ loaded p
      → Step s (record s { hazard = some p; readers = goes s.readers i (stored p) })
  accept :
      (i p : ℕ)
      → s.readers i ≡ stored p
      → s.current ≡ p
      → Step s (record s { readers = goes s.readers i (pinned p) })
  retry :
      (i p : ℕ)
      → s.readers i ≡ stored p
      → s.current ≢ p
      → Step s (record s { readers = goes s.readers i claimed })
  -- The guard is dropped.
  clear :
      (i p : ℕ)
      → s.readers i ≡ pinned p
      → Step s (record s { hazard = none; readers = goes s.readers i cleared })
  release :
      (i : ℕ)
      → s.readers i ≡ cleared
      → Step s (record s { pin_active = false; readers = goes s.readers i idle })
  -- `swap` with a graph of the caller, whose address is not that of one held here: the exchange, then the version and the token.
  swap :
      (p : ℕ)
      → held s p ≡ 0
      → Step s (record s { current = p; swapping = s.current ∷ s.swapping; given = p ∷ s.given })
  retire :
      (before : List ℕ) (old : ℕ) (after : List ℕ)
      → s.swapping ≡ before ++ (old ∷ after)
      → Step s (record s {
        version = wrapping_add s.version 1;
        swapping = before ++ after;
        tokens = record { pointer = old; retired_at_version = wrapping_add s.version 1 } ∷ s.tokens;
      })
  -- `try_into_box` and `try_reclaim`: the token comes back while its graph is in the hazard. Else the
  -- graph is freed by `try_reclaim`, and handed over by `try_into_box`.
  keep :
      (before : List RetiredDspGraph) (t : RetiredDspGraph) (after : List RetiredDspGraph)
      → s.tokens ≡ before ++ (t ∷ after)
      → s.hazard ≡ some t.pointer
      → Step s s
  reclaim :
      (before : List RetiredDspGraph) (t : RetiredDspGraph) (after : List RetiredDspGraph)
      → s.tokens ≡ before ++ (t ∷ after)
      → s.hazard ≢ some t.pointer
      → Step s (record s { tokens = before ++ after; freed = t.pointer ∷ s.freed })
  take_back :
      (before : List RetiredDspGraph) (t : RetiredDspGraph) (after : List RetiredDspGraph)
      → s.tokens ≡ before ++ (t ∷ after)
      → s.hazard ≢ some t.pointer
      → Step s (record s { tokens = before ++ after; returned = t.pointer ∷ s.returned })
  -- A token is dropped without being reclaimed: its graph leaks, whatever the hazard.
  forget :
      (before : List RetiredDspGraph) (t : RetiredDspGraph) (after : List RetiredDspGraph)
      → s.tokens ≡ before ++ (t ∷ after)
      → Step s (record s { tokens = before ++ after; leaked = t.pointer ∷ s.leaked })

-- The states that a new handle can come to.
pub data Reachable (initial : ℕ) : Publication → Type 0 where
  start : Reachable initial (new initial)
  next : (s s' : Publication) → Reachable initial s → Step s s' → Reachable initial s'
