-- ===== src/Host/Session/Constant.antt =====
-- A session at one host block size with crates/riaps-host/src/adapter_buf.rs: the constructor, the
-- calls, and `flush`.
use Prim.Native.Nat.{◌∣◌}
use mathlib.Core.List.{flatten}
use native.Mathlib.Nat.{dvd_refl}
use blockcat.Prelude.{
  ℕ, ◌+◌, ◌-◌, ◌^◌, ◌≤◌, ◌<◌, ◌≡◌, ◌∙◌, refl, sym, ap, subst, arith, Option, none, some, List, [],
  ◌∷◌, ◌++◌, map, length, append-nil, replicate, length-replicate, ◌>>=◌, saturating_mul,
}
use blockcat.Host.Blocks.{View, Adapter, missing, reserve, next_latency, flushed}
use blockcat.Host.Adapter.Flush.{new-Refines, flush-Refines}
use blockcat.Host.Adapter.{AdapterBuffer, AdapterProcessReport, greatest_common_divisor, new, flush}
use blockcat.Host.Adapter.Gcd.{dvd-greatest_common_divisor_iff}
use blockcat.Host.Timing.Reserve.{first-IsBalanced, reserve_first}
use blockcat.Host.Timing.Calls.{primed_view}
use blockcat.Host.Timing.{IsBalanced}
use blockcat.Host.Session.{run_blocks, All, AllClean}
use blockcat.Host.Session.Stream.{pointwise, pointwise-KeepsLength, flow, flow-flushed}
use blockcat.Host.Session.Whole.{Serves, Streams, cons-Streams, first-Serves, later-Streams}

-- All outputs of a session, the latency that the adapter states at its end, and the reports.
unfoldable pub session {ℓ κ} :
    {A : Type ℓ}
    → {S : Type κ} → A
    → (S → List A → List A → S × List A)
    → S
    → ℕ
    → ℕ
    → List (List A)
    → Option (List A × ℕ × List AdapterProcessReport)
session silence callback s target_block_size capacity blocks = do
  a ← new silence target_block_size capacity
  (s', a', out, reports) ← run_blocks silence callback s a blocks
  (s'', a'', tail) ← flush silence callback s' a'
  some (out ++ tail, a''.latency_samples, reports)

module _ {ℓ κ} {A : Type ℓ} {S : Type κ} (c d : ℕ) (silence : A) (f : A → A) where
  -- A session that ends with the queues tuned, whatever they hold.
  ended :
      (h g held latency : ℕ) (a : AdapterBuffer A) (t : Adapter A S) (blocks : List (List A))
      (before : List A)
      → new silence d c ≡ some a
      → held ≤ c
      → Streams c d silence f h g held latency t.view.state a blocks before
      → (reports : List AdapterProcessReport) × (session silence
            (pointwise f)
            t.view.state
            d
            c
            blocks
          ≡ some (before ++ map f (flatten blocks), latency, reports))
        × AllClean blocks reports
  unfolding session
  ended h g held latency a t blocks before made room
        (a', t', out, reports, e, tuned, clean, flows) =
      let bal = tuned.balanced in
      let (b, e', r, empty) =
        flush-Refines c d silence (pointwise f) (pointwise-KeepsLength f) a' t' tuned.refines
          bal.settled in
      let tail : (flushed c d silence (pointwise f) t'.view).output ≡ flow f t'.view =
        flow-flushed c d f silence t'.view bal.settled bal.scratch (omega (arith, bal.total)) in
      let all : out ++ (flushed c d silence (pointwise f) t'.view).output
          ≡ before ++ map f (flatten blocks) =
        ap (λ q. out ++ q) tail ∙ flows in
      let stated : b.latency_samples ≡ latency = r.latency ∙ tuned.delay in
      (reports, rw (made, e, e', all, stated), clean)

  -- With blocks of `h` samples from the first call on, what a session puts out is
  -- `d - gcd(h, d)` samples of silence and then every input, mapped; `latency_samples` is that
  -- number, and no report is other than clean. Here `d` and `h` are above 0, two blocks of `d` and
  -- `d - gcd(h, d) + h` samples fit the capacity, which is below 2^63, and there is a block.
  pub session-pointwise :
      (s : S) (h : ℕ) (x : List A) (xs : List (List A))
      → 0 < d
      → saturating_mul d 2 ≤ c
      → c < 2 ^ 63
      → 0 < h
      → All (λ y. length y ≡ h) (x ∷ xs)
      → d - greatest_common_divisor h d + h ≤ c
      → let delay = d - greatest_common_divisor h d in
        (reports : List AdapterProcessReport) × (session silence (pointwise f) s d c (x ∷ xs)
          ≡ some (replicate delay silence ++ map f (flatten (x ∷ xs)), delay, reports))
        × AllClean (x ∷ xs) reports
  session-pointwise s h x xs pos enough small full (size, sizes) room =
      let g : ℕ = greatest_common_divisor h d in
      let held : ℕ = d - g in
      let unit = ((dvd-greatest_common_divisor_iff h d g).0 (dvd_refl g)).0 in
      let (a, made, r) =
        new-Refines c d silence (pointwise f) (pointwise-KeepsLength f) s pos enough small in
      let view : View A S = record {
        state = s;
        input = [];
        output = [];
        scratch = replicate d silence;
      } in
      let t : Adapter A S = record { view = view; quantum = none; latency = 0 } in
      let late : next_latency (reserve d none (length x)) 0 ≡ held =
        ap (λ k. next_latency (reserve d none k) 0) size
        ∙ ap (λ o. next_latency o 0) (reserve_first d h full)
        ∙ omega arith in
      let bal : IsBalanced d g held (primed_view d silence t (length x)) =
        subst (λ k. IsBalanced d g held (primed_view d silence t k)) (sym size)
          (first-IsBalanced d silence view h full (refl, refl, length-replicate d silence, pos)) in
      let before : flow f (primed_view d silence t (length x)) ≡ replicate held silence =
        ap (λ k. flow f (primed_view d silence t k)) size
        ∙ ap (λ o. replicate (missing o 0) silence ++ []) (reserve_first d h full)
        ∙ append-nil (replicate (held - 0) silence)
        ∙ ap (λ k. replicate k silence) (omega arith) in
      ended h g held held a t (x ∷ xs) (replicate held silence) made (omega arith) (
        subst (Streams c d silence f h g held held s a (x ∷ xs)) before (
          cons-Streams c d silence f h g held held a t x xs
            (flow f (primed_view d silence t (length x)))
            (subst
              (λ k.
                Serves c d silence f k g held held a t x
                  (flow f (primed_view d silence t (length x))))
              size
              (first-Serves c d silence f g held held a t x r bal late (omega (arith, size, full))
                (subst (λ k. g ∣ k) (sym size) unit) (omega (arith, size, room))))
            (λ b u tuned.
              later-Streams c d silence f h g held held xs b u tuned sizes full unit room)))
