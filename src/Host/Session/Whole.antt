-- ===== src/Host/Session/Whole.antt =====
-- A whole session with crates/riaps-host/src/adapter_buf.rs, from the constructor to `flush`.
use Prim.Native.Nat.{◌∣◌}
use mathlib.Core.List.{map-append, flatten}
use native.Mathlib.Nat.{div-add-mod'}
use blockcat.Prelude.{
  ℕ, ◌+◌, ◌-◌, ◌/◌, ◌≤◌, ◌<◌, ◌≡◌, ◌∙◌, refl, sym, ap, subst, arith, some, List, [], ◌∷◌, ◌++◌, map,
  length, take, drop, take-append-drop, length-append, append_assoc, append-nil,
}
use blockcat.Host.Blocks.{
  View, Adapter, missing, reserve, next_latency, drained, filled, next, outputs, report,
}
use blockcat.Host.Adapter.{AdapterBuffer, AdapterProcessReport, process_host_block}
use blockcat.Host.Adapter.Prime.{Refines}
use blockcat.Host.Adapter.Process.{process_host_block-Refines}
use blockcat.Host.Timing.Reserve.{padded, reserve_same, next_quantum-reserve}
use blockcat.Host.Timing.Calls.{IsClean, primed_view, drained-served, next-IsBalanced}
use blockcat.Host.Timing.{IsBalanced, fed, served, served-IsBalanced}
use blockcat.Host.Session.{run_blocks, All, AllClean}
use blockcat.Host.Session.Stream.{pointwise, pointwise-KeepsLength, flow, flow-rounds}

filled-append-drop {ℓ} :
    {A : Type ℓ} (silence : A) (k : ℕ) (q r : List A)
    → k ≤ length q
    → filled silence k q ++ (drop k q ++ r) ≡ q ++ r
filled-append-drop silence k q r le =
    let enough : k - length q ≡ 0 = omega arith in
    rw (enough, append-nil)
      (sym (append_assoc (take k q) (drop k q) r) ∙ ap (λ t. t ++ r) (take-append-drop k q))

module _ {ℓ κ} {A : Type ℓ} {S : Type κ} (c d : ℕ) (silence : A) (f : A → A) where
  served-flow :
      (g held : ℕ) (v : View A S) (x : List A)
      → IsBalanced d g held v
      → held + length x ≤ c
      → flow f (served c d (pointwise f) v x).0 ≡ flow f v ++ map f x
  served-flow g held v x bal room =
      let n : ℕ = length (v.input ++ x) in
      let sum : n ≡ length v.input + length x = length-append v.input x in
      flow-rounds c d f (n / d) (fed c d (pointwise f) v x) 0 (omega (arith, div-add-mod' n d))
        bal.scratch (omega (arith, div-add-mod' n d, sum, bal.total))
      ∙ ap (λ t. v.output ++ t) (map-append f v.input x)
      ∙ sym (append_assoc v.output (map f v.input) (map f x))

  next-flow :
      (g held : ℕ) (t : Adapter A S) (x : List A)
      → IsBalanced d g held (primed_view d silence t (length x))
      → g ∣ length x
      → held + length x ≤ c
      → outputs c d silence (pointwise f) t x (length x)
          ++ flow f (next c d silence (pointwise f) t x (length x)).view
        ≡ flow f (primed_view d silence t (length x)) ++ map f x
  next-flow g held t x bal unit room =
      let v = primed_view d silence t (length x) in
      let same = drained-served c d silence (pointwise f) t x (omega (arith, bal.total)) in
      let (lost, ready, after) =
        served-IsBalanced c d (pointwise f) (pointwise-KeepsLength f) g held v x bal unit room in
      let w = drained c d silence (pointwise f) t x (length x) in
      filled-append-drop silence (length x) w.0.output (map f w.0.input)
        (subst (λ r. length x ≤ length r.0.output) (sym same) ready)
      ∙ ap (λ r. flow f r.0) same
      ∙ served-flow g held v x bal room

  -- The adapter between two blocks of `h` samples, when its reserve is established.
  pub record Tuned (h g held latency : ℕ) (a : AdapterBuffer A) (t : Adapter A S) : Type ℓ where
    pub refines : Refines c d a t
    pub quantum : t.quantum ≡ some h
    pub balanced : IsBalanced d g held t.view
    pub delay : t.latency ≡ latency

  -- One call: the adapter, its report, and what it puts out.
  abbrev pub Serves : ℕ → ℕ → ℕ → ℕ → AdapterBuffer A → Adapter A S → List A → List A → Type (ℓ ⊔ κ)
  Serves h g held latency a t x before =
      (a' : AdapterBuffer A) × (t' : Adapter A S) × (out : List A) × (seen : AdapterProcessReport)
      × (process_host_block silence (pointwise f) t.view.state a x (length x)
          ≡ some (t'.view.state, a', out, seen))
      × Tuned h g held latency a' t'
      × IsClean (length x) seen
      × (out ++ flow f t'.view ≡ before ++ map f x)

  primed_same :
      (h : ℕ) (t : Adapter A S) → 0 < h → t.quantum ≡ some h → primed_view d silence t h ≡ t.view
  primed_same h t pos e =
      ap (λ q. padded d silence t.view (missing (reserve d q h) (length t.view.output))) e
      ∙ ap (λ o. padded d silence t.view (missing o (length t.view.output))) (reserve_same d h pos)
      ∙ ap (λ q. record (t.view) { output = q }) (append-nil t.view.output)

  pub first-Serves :
      (g held latency : ℕ) (a : AdapterBuffer A) (t : Adapter A S) (x : List A)
      → Refines c d a t
      → IsBalanced d g held (primed_view d silence t (length x))
      → next_latency (reserve d t.quantum (length x)) t.latency ≡ latency
      → 0 < length x
      → g ∣ length x
      → held + length x ≤ c
      → Serves (length x) g held latency a t x (flow f (primed_view d silence t (length x)))
  first-Serves g held latency a t x r bal late pos unit room =
      let h : ℕ = length x in
      let (a', e, r') =
        process_host_block-Refines c d silence (pointwise f) (pointwise-KeepsLength f) a t x h r in
      let (clean, bal') =
        next-IsBalanced c d silence (pointwise f) (pointwise-KeepsLength f) g held t x bal unit
          room in
      (
        a',
        next c d silence (pointwise f) t x h,
        outputs c d silence (pointwise f) t x h,
        report c d silence (pointwise f) t x h,
        e,
        record {
          refines = r';
          quantum = next_quantum-reserve d t.quantum h pos;
          balanced = bal';
          delay = late;
        },
        clean,
        next-flow g held t x bal unit room,
      )

  later-Serves :
      (g held latency : ℕ) (a : AdapterBuffer A) (t : Adapter A S) (x : List A)
      → Tuned (length x) g held latency a t
      → 0 < length x
      → g ∣ length x
      → held + length x ≤ c
      → Serves (length x) g held latency a t x (flow f t.view)
  later-Serves g held latency a t x tuned pos unit room =
      let h : ℕ = length x in
      let same = primed_same h t pos tuned.quantum in
      let late : next_latency (reserve d t.quantum h) t.latency ≡ latency =
        ap (λ q. next_latency (reserve d q h) t.latency) tuned.quantum
        ∙ ap (λ o. next_latency o t.latency) (reserve_same d h pos)
        ∙ tuned.delay in
      subst (λ v. Serves h g held latency a t x (flow f v)) same
        (first-Serves g held latency a t x tuned.refines
          (subst (IsBalanced d g held) (sym same) tuned.balanced) late pos unit room)

  -- The calls for further blocks of the same size, and what they put out.
  abbrev pub Streams : ℕ → ℕ → ℕ → ℕ → S → AdapterBuffer A → List (List A) → List A → Type (ℓ ⊔ κ)
  Streams h g held latency s a blocks before =
      (a' : AdapterBuffer A) × (t' : Adapter A S) × (out : List A) × (reports : List
        AdapterProcessReport)
      × (run_blocks silence (pointwise f) s a blocks ≡ some (t'.view.state, a', out, reports))
      × Tuned h g held latency a' t'
      × AllClean blocks reports
      × (out ++ flow f t'.view ≡ before ++ map f (flatten blocks))

  -- One call and the calls after it.
  pub cons-Streams :
      (h g held latency : ℕ) (a : AdapterBuffer A) (t : Adapter A S) (x : List A)
      (xs : List (List A)) (before : List A)
      → Serves h g held latency a t x before
      → ((b : AdapterBuffer A) (u : Adapter A S)
          → Tuned h g held latency b u
          → Streams h g held latency u.view.state b xs (flow f u.view))
      → Streams h g held latency t.view.state a (x ∷ xs) before
  unfolding run_blocks flatten
  cons-Streams h g held latency a t x xs before (b, u, out, seen, e, tuned, clean, flows) rest =
      let (a', t', outs, reports, e', tuned', cleans, flows') = rest b u tuned in
      (
        a',
        t',
        out ++ outs,
        seen ∷ reports,
        rw (e, e'),
        tuned',
        (clean, cleans),
        append_assoc out outs (flow f t'.view)
            ∙ ap (λ r. out ++ r) flows'
            ∙ sym (append_assoc out (flow f u.view) (map f (flatten xs)))
            ∙ ap (λ r. r ++ map f (flatten xs)) flows
            ∙ append_assoc before (map f x) (map f (flatten xs))
            ∙ ap (λ r. before ++ r) (sym (map-append f x (flatten xs))),
      )

  pub later-Streams :
      (h g held latency : ℕ) (blocks : List (List A)) (a : AdapterBuffer A) (t : Adapter A S)
      → Tuned h g held latency a t
      → All (λ x. length x ≡ h) blocks
      → 0 < h
      → g ∣ h
      → held + h ≤ c
      → Streams h g held latency t.view.state a blocks (flow f t.view)
  unfolding run_blocks flatten
  later-Streams h g held latency [] a t tuned sizes pos unit room =
      (a, t, [], [], refl, tuned, tt, sym (append-nil (flow f t.view)))
  later-Streams h g held latency (x ∷ xs) a t tuned (size, sizes) pos unit room =
      cons-Streams h g held latency a t x xs (flow f t.view)
        (subst (λ k. Serves k g held latency a t x (flow f t.view)) size
          (later-Serves g held latency a t x
            (subst (λ k. Tuned k g held latency a t) (sym size) tuned) (omega (arith, size, pos))
            (subst (λ k. g ∣ k) (sym size) unit) (omega (arith, size, room))))
        (λ b u tuned'. later-Streams h g held latency xs b u tuned' sizes pos unit room)
