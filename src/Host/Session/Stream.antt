-- ===== src/Host/Session/Stream.antt =====
-- What comes out of crates/riaps-host/src/adapter_buf.rs, for callbacks that map each sample by
-- itself and host blocks of one size: the silence of the reserve, then the whole mapped input.
use mathlib.Core.List.{map-append}
use blockcat.Prelude.{
  ℕ, zero, suc, ◌+◌, ◌-◌, ◌*◌, min, ◌≤◌, ◌<◌, dec_lt, ◌≡◌, ◌∙◌, refl, sym, ap, arith, List, [], ◌∷◌,
  ◌++◌, map, length, take, drop, take-append-drop, take_of_length_le, length-take, length-map,
  length-append, append_assoc, append-nil, replicate, length-replicate,
}
use blockcat.Host.Blocks.{View, round, rounds, flushed, flush_block}
use blockcat.Host.Adapter.Flush.{flushed_empty, flushed_some}
use blockcat.Host.Rounds.{KeepsLength, round-Moved}

-- `for (o, i) in outputs.iter_mut().zip(inputs) { *o = f(i) }`
abbrev pub write_each {ℓ} : {A : Type ℓ} → (A → A) → List A → List A → List A
write_each f [] out = out
write_each f (x ∷ xs) [] = []
write_each f (x ∷ xs) (y ∷ out) = f x ∷ write_each f xs out

module _ {ℓ} {A : Type ℓ} (f : A → A) where
  length-write_each : (xs out : List A) → length (write_each f xs out) ≡ length out
  length-write_each [] out = refl
  length-write_each (x ∷ xs) [] = refl
  length-write_each (x ∷ xs) (y ∷ out) = ap suc (length-write_each xs out)

  write_each-eq-map : (xs out : List A) → length xs ≡ length out → write_each f xs out ≡ map f xs
  write_each-eq-map [] [] e = refl
  write_each-eq-map [] (y ∷ out) e = absurd (omega (arith, e))
  write_each-eq-map (x ∷ xs) [] e = absurd (omega (arith, e))
  write_each-eq-map (x ∷ xs) (y ∷ out) e =
      ap (λ t. f x ∷ t) (write_each-eq-map xs out (omega (arith, e)))

  take-map-append : (xs ys : List A) → take (length xs) (map f (xs ++ ys)) ≡ map f xs
  take-map-append [] ys = refl
  take-map-append (x ∷ xs) ys = ap (λ t. f x ∷ t) (take-map-append xs ys)

eq-nil_of_length {ℓ} : {A : Type ℓ} (xs : List A) → length xs ≡ 0 → xs ≡ []
eq-nil_of_length [] e = refl
eq-nil_of_length (x ∷ xs) e = absurd (omega (arith, e))

module _ {ℓ κ} {A : Type ℓ} {S : Type κ} (f : A → A) where
  abbrev pub pointwise : S → List A → List A → S × List A
  pointwise s i o = (s, write_each f i o)

  pub pointwise-KeepsLength : KeepsLength pointwise
  pointwise-KeepsLength s i o = length-write_each f i o

  -- What is still to come out of a view.
  abbrev pub flow : View A S → List A
  flow v = v.output ++ map f v.input

module _ {ℓ κ} {A : Type ℓ} {S : Type κ} (c d : ℕ) (f : A → A) where
  flow-round :
      (v : View A S)
      → d ≤ length v.input
      → length v.scratch ≡ d
      → length v.output + d ≤ c
      → flow f (round c d (pointwise f) v).0 ≡ flow f v
  unfolding round
  flow-round v le sc room =
      let block : List A = take d v.input in
      let done : write_each f block v.scratch ≡ map f block =
        write_each-eq-map f block v.scratch (omega (arith, sc, length-take d v.input)) in
      let whole : take (min (length (map f block)) (c - length v.output)) (map f block)
          ≡ map f block =
        take_of_length_le (min (length (map f block)) (c - length v.output)) (map f block)
          (omega (arith, length-map f block, length-take d v.input)) in
      rw (done, whole)
        (append_assoc v.output (map f block) (map f (drop d v.input))
          ∙ ap (λ t. v.output ++ t)
              (sym (map-append f block (drop d v.input)) ∙ ap (map f) (take-append-drop d v.input)))

  pub flow-rounds :
      (k : ℕ) (v : View A S) (dropped : ℕ)
      → k * d ≤ length v.input
      → length v.scratch ≡ d
      → length v.output + k * d ≤ c
      → flow f (rounds c d (pointwise f) k v dropped).0 ≡ flow f v
  unfolding rounds
  flow-rounds zero v dropped le sc room = refl
  flow-rounds (suc k) v dropped le sc room =
      let (m, none_lost) =
        round-Moved c d (pointwise f) (pointwise-KeepsLength f) v sc (omega arith) in
      let rd = round c d (pointwise f) v in
      flow-rounds k rd.0 (dropped + rd.1) (omega (arith, m.input)) m.scratch
        (omega (arith, m.output))
      ∙ flow-round v (omega arith) sc (omega arith)

  flow-flush_block :
      (silence : A) (v : View A S)
      → length v.input < d
      → length v.scratch ≡ d
      → length v.output + length v.input ≤ c
      → (flush_block c d silence (pointwise f) v).output ≡ flow f v
  unfolding flush_block
  flow-flush_block silence v lt sc room =
      let n : ℕ = length v.input in
      let pad : List A = replicate (d - n) silence in
      let done : write_each f (v.input ++ pad) v.scratch ≡ map f (v.input ++ pad) =
        write_each-eq-map f (v.input ++ pad) v.scratch
          (omega (arith, length-append v.input pad, length-replicate (d - n) silence, sc)) in
      let kept : take n (map f (v.input ++ pad)) ≡ map f v.input = take-map-append f v.input pad in
      let whole : take (min (length (map f v.input)) (c - length v.output)) (map f v.input)
          ≡ map f v.input =
        take_of_length_le (min (length (map f v.input)) (c - length v.output)) (map f v.input)
          (omega (arith, length-map f v.input)) in
      rw (done, kept, whole)

  -- The last block, filled up with silence, brings out what was left.
  pub flow-flushed :
      (silence : A) (v : View A S)
      → length v.input < d
      → length v.scratch ≡ d
      → length v.output + length v.input ≤ c
      → (flushed c d silence (pointwise f) v).output ≡ flow f v
  flow-flushed silence v lt sc room = elim (dec_lt 0 (length v.input)) [
    | yes pos ↦
        ap (λ w. w.output) (flushed_some c d silence (pointwise f) (pointwise-KeepsLength f) v pos)
        ∙ flow-flush_block silence v lt sc room
    | no zero_left ↦
        ap (λ w. w.output)
          (flushed_empty c d silence (pointwise f) (pointwise-KeepsLength f) v (omega arith))
        ∙ sym (append-nil v.output)
        ∙ ap (λ q. v.output ++ map f q) (sym (eq-nil_of_length v.input (omega arith)))
  ]
