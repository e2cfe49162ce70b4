-- ===== src/Host/Session.antt =====
-- Whole sessions with the adapter of crates/riaps-host/src/adapter_buf.rs: a host that calls it once
-- for each block, with as many outputs as inputs, as the module's tests do.
pub mod Stream
pub mod Whole
pub mod Constant
mod Tests
use blockcat.Prelude.{
  ℕ, ◌+◌, ◌-◌, ◌*◌, ◌^◌, ◌≤◌, ◌<◌, ◌≡◌, ◌∙◌, refl, sym, subst, arith, Option, none, some, List, [],
  ◌∷◌, ◌++◌, length, replicate, length-replicate, ◌>>=◌, saturating_mul,
}
use blockcat.Host.Blocks.{View, Adapter, next, outputs, report}
use blockcat.Host.Rounds.{KeepsLength}
use blockcat.Host.Adapter.{AdapterBuffer, AdapterProcessReport, new, process_host_block}
use blockcat.Host.Adapter.Prime.{Refines}
use blockcat.Host.Adapter.Process.{process_host_block-Refines}
use blockcat.Host.Adapter.Flush.{new-Refines}
use blockcat.Host.Timing.Reserve.{HoldsReserve, padded-HoldsReserve, next_quantum-reserve}
use blockcat.Host.Timing.Calls.{IsClean, next-IsBalanced}

abbrev pub All {ℓ κ} : {A : Type ℓ} → (A → Type κ) → List A → Type κ
All P [] = Unit
All P (x ∷ xs) = P x × All P xs

-- One report for each block, and each is clean.
abbrev pub AllClean {ℓ} : {A : Type ℓ} → List (List A) → List AdapterProcessReport → Type 0
AllClean [] [] = Unit
AllClean (x ∷ xs) (r ∷ rs) = IsClean (length x) r × AllClean xs rs
AllClean _ _ = ⊥

module _ {ℓ κ} {A : Type ℓ} {S : Type κ} (silence : A)
    (callback : S → List A → List A → S × List A) where
  -- The outputs of all calls in order, and the reports.
  unfoldable pub run_blocks :
      S
      → AdapterBuffer A
      → List (List A)
      → Option (S × AdapterBuffer A × List A × List AdapterProcessReport)
  run_blocks s a [] = some (s, a, [], [])
  run_blocks s a (x ∷ xs) = do
    (s', a', out, seen) ← process_host_block silence callback s a x (length x)
    (s'', a'', outs, reports) ← run_blocks s' a' xs
    some (s'', a'', out ++ outs, seen ∷ reports)

module _ {ℓ κ} {A : Type ℓ} {S : Type κ} (c d : ℕ) (silence : A)
    (callback : S → List A → List A → S × List A) (keeps : KeepsLength callback) where
  -- A block that is not empty, and for which the queues have room.
  abbrev pub Fits : List A → Type 0
  Fits x = (0 < length x) × (length x + d + d ≤ c + 2)

  next-HoldsReserve :
      (t : Adapter A S) (x : List A)
      → HoldsReserve d t.quantum t.view
      → Fits x
      → let t' = next c d silence callback t x (length x) in
        IsClean (length x) (report c d silence callback t x (length x))
        × HoldsReserve d t'.quantum t'.view
  next-HoldsReserve t x r fits =
      let h : ℕ = length x in
      let (g, held, unit, small, bal) = padded-HoldsReserve d silence t.quantum t.view h fits.0 r in
      let (clean, bal') =
        next-IsBalanced c d silence callback keeps g held t x bal unit
          (omega (arith, small, fits)) in
      (
        clean,
        subst (λ q. HoldsReserve d q (next c d silence callback t x h).view)
            (sym (next_quantum-reserve d t.quantum h fits.0)) (g, held, unit, small, bal'),
      )

  run_blocks-AllClean :
      (blocks : List (List A)) (a : AdapterBuffer A) (t : Adapter A S)
      → Refines c d a t
      → HoldsReserve d t.quantum t.view
      → All Fits blocks
      → (s' : S) × (a' : AdapterBuffer A) × (out : List A) × (reports : List AdapterProcessReport)
        × (run_blocks silence callback t.view.state a blocks ≡ some (s', a', out, reports))
        × AllClean blocks reports
  unfolding run_blocks
  run_blocks-AllClean [] a t r held fits = (t.view.state, a, [], [], refl, tt)
  run_blocks-AllClean (x ∷ xs) a t r held (fit, fits) =
      let (a', e, r') = process_host_block-Refines c d silence callback keeps a t x (length x) r in
      let t' = next c d silence callback t x (length x) in
      let (clean, held') = next-HoldsReserve t x held fit in
      let (s'', a'', outs, reports, e', cleans) = run_blocks-AllClean xs a' t' r' held' fits in
      (
        s'',
        a'',
        outputs c d silence callback t x (length x) ++ outs,
        report c d silence callback t x (length x) ∷ reports,
        rw (e, e'),
        (clean, cleans),
      )

  -- A new adapter for blocks of `d` samples and a capacity of `c` serves any sequence of host
  -- blocks, of sizes that may change from block to block, with no panic, no dropped sample and no
  -- underrun. Each block is not empty, has as many outputs as inputs, and leaves room for two blocks
  -- of `d` less two samples in the capacity. Here `d` > 0, two blocks of `d` fit the capacity, which
  -- is below 2^63, and the callback keeps the length of its output block.
  pub new-run_blocks :
      (s : S) (blocks : List (List A))
      → 0 < d
      → saturating_mul d 2 ≤ c
      → c < 2 ^ 63
      → All Fits blocks
      → (a : AdapterBuffer A) × (new silence d c ≡ some a)
        × (s' : S) × (a' : AdapterBuffer A) × (out : List A) × (reports : List AdapterProcessReport)
        × (run_blocks silence callback s a blocks ≡ some (s', a', out, reports))
        × AllClean blocks reports
  new-run_blocks s blocks pos room small fits =
      let (a, e, r) = new-Refines c d silence callback keeps s pos room small in
      let view : View A S = record {
        state = s;
        input = [];
        output = [];
        scratch = replicate d silence;
      } in
      let (s', a', out, reports, run, clean) =
        run_blocks-AllClean blocks a (record { view = view; quantum = none; latency = 0 }) r
          (refl, refl, length-replicate d silence, pos) fits in
      (a, e, s', a', out, reports, run, clean)
