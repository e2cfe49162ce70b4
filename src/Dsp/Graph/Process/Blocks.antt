-- ===== src/Dsp/Graph/Process/Blocks.antt =====
-- The blocks of the nodes in the flat buffer of crates/riaps-dsp/src/graph.rs, and their sums.
use blockcat.Prelude.{
  ℕ, zero, suc, ◌+◌, ◌*◌, ◌≤◌, ◌<◌, ◌≡◌, ◌∙◌, refl, sym, ap, arith, true, false, dec_lt, ℕ_discrete,
  some, List, [], ◌∷◌, map, ◌==◌, length, length-take, length-replicate, take, drop, replicate,
}
use blockcat.Dsp.Graph.Lookup.{update}
use blockcat.Dsp.Graph.Schedule.{IsBelow, head-IsBelow, tail-IsBelow}
use blockcat.Dsp.Graph.Process.{slice, write_slice, add_into, mix_nodes, mix_input}
use blockcat.Dsp.Graph.Process.Slices.{
  slice-some, write_slice_same, write_slice_before, write_slice_after, length-add_into,
}

-- The block of a node ends where the next one starts at the latest.
pub block_room : (v n mb sc : ℕ) → v < n → sc ≤ mb → v * mb + sc ≤ n * mb
block_room v zero mb sc lt le = absurd (omega arith)
block_room v (suc n) mb sc lt le = elim (ℕ_discrete v n) [
  | yes same ↦ omega (arith, le, ap (λ k. k * mb) same)
  | no ne ↦ let rest = block_room v n mb sc (omega arith) le in omega arith
]

module _ {ℓ} {F : Type ℓ} where
  -- The buffer holds the block `f v` of every node `v`, in its first `sc` samples.
  abbrev pub HoldsBlocks : ℕ → ℕ → ℕ → List F → (ℕ → List F) → Type ℓ
  HoldsBlocks n mb sc outs f = (v : ℕ) → v < n → take sc (drop (v * mb) outs) ≡ f v

  module _ (n mb sc : ℕ) (fits : sc ≤ mb) where
    pub slice-HoldsBlocks :
        (outs : List F) (f : ℕ → List F) (v : ℕ)
        → length outs ≡ n * mb
        → HoldsBlocks n mb sc outs f
        → v < n
        → slice outs (v * mb) sc ≡ some (f v)
    slice-HoldsBlocks outs f v size blocks lt =
        slice-some outs (v * mb) sc (omega (arith, block_room v n mb sc lt fits, size))
        ∙ ap some (blocks v lt)

    -- A node that writes its block leaves the blocks of the others alone.
    pub write-HoldsBlocks :
        (outs : List F) (f : ℕ → List F) (i : ℕ) (block : List F)
        → length outs ≡ n * mb
        → HoldsBlocks n mb sc outs f
        → i < n
        → length block ≡ sc
        → HoldsBlocks n mb sc (write_slice outs (i * mb) block) (update f i block)
    write-HoldsBlocks outs f i block size blocks lt long v inside = elim (ℕ_discrete v i) [
      | yes same ↦
          let here : (v == i) ≡ true = ground arith in
          rw here (
            ap (λ k. take sc (drop (k * mb) (write_slice outs (i * mb) block))) same
            ∙ ap (λ c. take c (drop (i * mb) (write_slice outs (i * mb) block))) (sym long)
            ∙ write_slice_same outs (i * mb) block
                (omega (arith, block_room i n mb sc lt fits, size, long)))
      | no ne ↦
          let other : (v == i) ≡ false = ground arith in
          rw other (elim (dec_lt v i) [
            | yes before ↦
                write_slice_before outs (i * mb) block (v * mb) sc
                  (block_room v i mb sc before fits)
                ∙ blocks v inside
            | no after ↦
                ap (take sc) (
                  write_slice_after outs (i * mb) block (v * mb)
                    (omega (arith, block_room i v mb sc (omega (arith, ne)) fits, long)))
                ∙ blocks v inside
          ])
    ]

module _ {ℓ} {F : Type ℓ} (add : F → F → F) (silence : F) where
  -- The sum of blocks, added one after another to the samples `mixed`.
  pub sum_blocks : List F → List (List F) → List F
  sum_blocks mixed [] = mixed
  sum_blocks mixed (b ∷ bs) = sum_blocks (add_into add mixed b) bs

  pub length-sum_blocks :
      (mixed : List F) (bs : List (List F)) → length (sum_blocks mixed bs) ≡ length mixed
  unfolding sum_blocks
  length-sum_blocks mixed [] = refl
  length-sum_blocks mixed (b ∷ bs) =
      length-sum_blocks (add_into add mixed b) bs ∙ length-add_into add mixed b

  -- What a node gets: the sum of the blocks of its predecessors, or the input where it has none.
  pub received : List F → List (List F) → List F
  received input [] = input
  received input (b ∷ bs) = sum_blocks (replicate (length input) silence) (b ∷ bs)

  pub length-received :
      (input : List F) (bs : List (List F)) → length (received input bs) ≡ length input
  unfolding received
  length-received input [] = refl
  length-received input (b ∷ bs) =
      length-sum_blocks (replicate (length input) silence) (b ∷ bs)
      ∙ length-replicate (length input) silence

  module _ (n mb sc : ℕ) (fits : sc ≤ mb) where
    pub mix_nodes_lem :
        (outs : List F) (f : ℕ → List F) (vs : List ℕ) (mixed : List F)
        → length outs ≡ n * mb
        → HoldsBlocks n mb sc outs f
        → IsBelow n vs
        → mix_nodes add outs mb sc vs mixed ≡ some (sum_blocks mixed (map f vs))
    unfolding mix_nodes sum_blocks
    mix_nodes_lem outs f [] mixed size blocks below = refl
    mix_nodes_lem outs f (v ∷ vs) mixed size blocks below =
        rw (slice-HoldsBlocks n mb sc fits outs f v size blocks (head-IsBelow n v vs below)) (
          mix_nodes_lem outs f vs (add_into add mixed (f v)) size blocks
            (tail-IsBelow n v vs below))

    pub mix_input_lem :
        (input outs : List F) (f : ℕ → List F) (vs : List ℕ)
        → sc ≤ length input
        → length outs ≡ n * mb
        → HoldsBlocks n mb sc outs f
        → IsBelow n vs
        → mix_input add silence input outs mb sc vs ≡ some (received (take sc input) (map f vs))
    unfolding mix_input received
    mix_input_lem input outs f [] long size blocks below = slice-some input 0 sc (omega arith)
    mix_input_lem input outs f (v ∷ vs) long size blocks below =
        mix_nodes_lem outs f (v ∷ vs) (replicate sc silence) size blocks below
        ∙ ap (λ k. some (sum_blocks (replicate k silence) (map f (v ∷ vs))))
            (omega (arith, length-take sc input))
