-- ===== src/Host/Session/Tests.antt =====
-- Runs of the adapter, and its theorems at concrete sessions.
use mathlib.Core.List.{flatten}
use blockcat.Prelude.{
  ℕ, ◌+◌, ◌-◌, ◌≡◌, refl, arith, none, some, List, [], ◌∷◌, ◌++◌, map, length, replicate,
}
use blockcat.Host.Blocks.{Adapter, next, outputs, report, flushed}
use blockcat.Host.Adapter.{
  AdapterBuffer, AdapterProcessReport, greatest_common_divisor, new, process_host_block, flush,
}
use blockcat.Host.Adapter.Prime.{Refines}
use blockcat.Host.Adapter.Process.{process_host_block-Refines}
use blockcat.Host.Adapter.Flush.{flush-Refines}
use blockcat.Host.Session.{new-run_blocks, run_blocks, AllClean}
use blockcat.Host.Session.Stream.{pointwise, pointwise-KeepsLength}
use blockcat.Host.Session.Constant.{session, session-pointwise}

abbrev plus_ten : ℕ → ℕ
plus_ten x = x + 10

-- Blocks of four samples; the input queue holds one sample, 7.
abbrev one_left : AdapterBuffer ℕ
one_left = record {
  input_fifo = record { storage = 7 ∷ replicate 11 0; read = 0; write = 1; len = 1 };
  output_fifo = record { storage = replicate 12 0; read = 0; write = 0; len = 0 };
  scratch_in = replicate 4 0;
  scratch_out = replicate 4 0;
  target_block_size = 4;
  host_quantum = none;
  latency_samples = 0;
}

abbrev one_left_view : Adapter ℕ (Unit {0})
one_left_view = record {
  view = record { state = tt; input = 7 ∷ []; output = []; scratch = replicate 4 0 };
  quantum = none;
  latency = 0;
}

one_left-Refines : Refines 12 4 one_left one_left_view
one_left-Refines = record {
  models = record {
    input = record {
      laid = record { size = refl; read_in = omega arith; write_at = refl; held = (refl, tt) };
      count = refl;
      room = omega arith;
    };
    output = record {
      laid = record { size = refl; read_in = omega arith; write_at = refl; held = tt };
      count = refl;
      room = omega arith;
    };
    block_in = refl;
    block_out = refl;
    same_scratch = refl;
    target = refl;
    positive = omega arith;
    enough = omega arith;
  };
  quantum = refl;
  latency = refl;
}

abbrev stateless : Unit {0}
stateless = tt

abbrev six : List ℕ
six = 1 ∷ 2 ∷ 3 ∷ 4 ∷ 5 ∷ 6 ∷ []

process_host_block_example :
    (a' : AdapterBuffer ℕ) × (process_host_block 0 (pointwise plus_ten) tt one_left six 6
      ≡ some (
        (next 12 4 0 (pointwise plus_ten) one_left_view six 6).view.state,
        a',
        outputs 12 4 0 (pointwise plus_ten) one_left_view six 6,
        report 12 4 0 (pointwise plus_ten) one_left_view six 6,
      ))
    × Refines 12 4 a' (next 12 4 0 (pointwise plus_ten) one_left_view six 6)
process_host_block_example =
    process_host_block-Refines 12 4 0 (pointwise plus_ten) (pointwise-KeepsLength plus_ten) one_left
      one_left_view six 6 one_left-Refines

flush_example :
    let w = flushed 12 4 0 (pointwise plus_ten) one_left_view.view in
    (a' : AdapterBuffer ℕ) × (flush 0 (pointwise plus_ten) tt one_left
      ≡ some (w.state, a', w.output))
    × Refines 12 4 a' (record one_left_view { view = record w { output = [] } })
    × (length w.input ≡ 0)
flush_example =
    flush-Refines 12 4 0 (pointwise plus_ten) (pointwise-KeepsLength plus_ten) one_left
      one_left_view one_left-Refines (omega arith)

new-run_blocks_example :
    (a : AdapterBuffer ℕ) × (new 0 4 12 ≡ some a)
    × (s' : Unit {0}) × (a' : AdapterBuffer ℕ) × (out : List ℕ) × (reports : List
        AdapterProcessReport)
    × (run_blocks 0 (pointwise plus_ten) tt a (six ∷ (7 ∷ []) ∷ six ∷ [])
        ≡ some (s', a', out, reports))
    × AllClean (six ∷ (7 ∷ []) ∷ six ∷ []) reports
new-run_blocks_example =
    new-run_blocks 12 4 0 (pointwise plus_ten) (pointwise-KeepsLength plus_ten) tt
      (six ∷ (7 ∷ []) ∷ six ∷ []) (omega arith) (omega arith) (omega arith)
      ((omega arith, omega arith), ((omega arith, omega arith), ((omega arith, omega arith), tt)))

gcd_six_four : greatest_common_divisor 6 4 ≡ 2
unfolding greatest_common_divisor
gcd_six_four = refl

session-pointwise_example :
    let delay = 4 - greatest_common_divisor 6 4 in
    (reports : List AdapterProcessReport) × (session 0
        (pointwise plus_ten)
        stateless
        4
        12
        (six ∷ six ∷ [])
      ≡ some (replicate delay 0 ++ map plus_ten (flatten (six ∷ six ∷ [])), delay, reports))
    × AllClean (six ∷ six ∷ []) reports
session-pointwise_example =
    session-pointwise 12 4 0 plus_ten stateless 6 six (six ∷ []) (omega arith) (omega arith)
      (omega arith) (omega arith) (refl, (refl, tt)) (omega arith)
