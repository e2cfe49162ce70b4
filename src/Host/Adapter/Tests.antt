-- ===== src/Host/Adapter/Tests.antt =====
-- A run of the adapter in which the size of the host blocks changes.
use Prim.Native.Nat.{◌∣◌}
use mathlib.Core.Logic.{◌↔◌}
use blockcat.Host.Adapter.Gcd.{dvd-greatest_common_divisor_iff}
use blockcat.Prelude.{ℕ, ◌≡◌, refl, Option, some, List, [], ◌∷◌, ◌++◌, replicate, ◌>>=◌}
use blockcat.Host.Fifo.{write_one, write_all, push_slice, write_zeros, push_zeros, pop}
use blockcat.Host.Fifo
use blockcat.Host.Adapter.{
  gcd_loop, greatest_common_divisor, new, prime, prime_for_quantum, pop_block, pop_all,
  fill_outputs, drain_round, drain_loop, drain_complete_blocks, process_host_block, flush_some,
  flush_remainder, flush,
}

-- The graph hands its input on.
abbrev through : Unit {0} → List ℕ → List ℕ → Unit {0} × List ℕ
through s i o = (s, i)

-- A block of six samples, then one of four, with graph blocks of eight samples; all outputs, and
-- the latency stated at the end.
abbrev six_then_four : Option (List ℕ × ℕ)
six_then_four = do
  a ← new 0 8 24
  (s, b, out, r) ← process_host_block 0 through tt a (1 ∷ 2 ∷ 3 ∷ 4 ∷ 5 ∷ 6 ∷ []) 6
  (s', c, out', r') ← process_host_block 0 through s b (7 ∷ 8 ∷ 9 ∷ 10 ∷ []) 4
  (s'', e, tail) ← flush 0 through s' c
  some (out ++ (out' ++ tail), e.latency_samples)

-- Thirteen samples of silence come before the input, and the stated latency is seven.
six_then_four_delay :
    six_then_four ≡ some (replicate 13 0 ++ (1 ∷ 2 ∷ 3 ∷ 4 ∷ 5 ∷ 6 ∷ 7 ∷ 8 ∷ 9 ∷ 10 ∷ []), 7)
unfolding new Fifo.new write_one write_all push_slice write_zeros push_zeros pop gcd_loop
    greatest_common_divisor prime prime_for_quantum pop_block pop_all fill_outputs drain_round
    drain_loop drain_complete_blocks process_host_block flush_some flush_remainder flush
six_then_four_delay = refl

dvd-greatest_common_divisor_iff_example : (4 ∣ greatest_common_divisor 12 8) ↔ ((4 ∣ 12) × (4 ∣ 8))
dvd-greatest_common_divisor_iff_example = dvd-greatest_common_divisor_iff 12 8 4
