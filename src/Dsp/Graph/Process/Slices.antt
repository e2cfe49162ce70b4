-- ===== src/Dsp/Graph/Process/Slices.antt =====
-- Reads and writes of slices of a buffer, for the node buffers of crates/riaps-dsp/src/graph.rs.
use blockcat.Prelude.{
  ℕ, zero, suc, ◌+◌, ◌≤◌, ◌≡◌, refl, ap, arith, true, some, List, [], ◌∷◌, leb, length, take, drop,
}
use blockcat.Dsp.Graph.Process.{slice, overwrite, write_slice, add_into}

module _ {ℓ} {A : Type ℓ} where
  pub slice-some :
      (xs : List A) (start count : ℕ)
      → start + count ≤ length xs
      → slice xs start count ≡ some (take count (drop start xs))
  unfolding slice
  slice-some xs start count fits =
      let test : leb (start + count) (length xs) ≡ true = ground arith in rw test refl

  pub length-overwrite : (xs block : List A) → length (overwrite xs block) ≡ length xs
  unfolding overwrite
  length-overwrite [] block = refl
  length-overwrite (x ∷ xs) [] = refl
  length-overwrite (x ∷ xs) (y ∷ block) = ap suc (length-overwrite xs block)

  pub length-write_slice :
      (xs : List A) (start : ℕ) (block : List A) → length (write_slice xs start block) ≡ length xs
  unfolding write_slice
  length-write_slice xs zero block = length-overwrite xs block
  length-write_slice [] (suc start) block = refl
  length-write_slice (x ∷ xs) (suc start) block = ap suc (length-write_slice xs start block)

  take-overwrite :
      (xs block : List A)
      → length block ≤ length xs
      → take (length block) (overwrite xs block) ≡ block
  unfolding overwrite
  take-overwrite xs [] fits = refl
  take-overwrite [] (y ∷ block) fits = absurd (omega arith)
  take-overwrite (x ∷ xs) (y ∷ block) fits = ap (λ t. y ∷ t) (take-overwrite xs block (omega arith))

  -- A slice that was written is read back.
  pub write_slice_same :
      (xs : List A) (start : ℕ) (block : List A)
      → start + length block ≤ length xs
      → take (length block) (drop start (write_slice xs start block)) ≡ block
  unfolding write_slice
  write_slice_same xs zero block fits = take-overwrite xs block (omega arith)
  write_slice_same [] (suc start) block fits = absurd (omega arith)
  write_slice_same (x ∷ xs) (suc start) block fits = write_slice_same xs start block (omega arith)

  -- A slice in front of the one that was written is unchanged.
  pub write_slice_before :
      (xs : List A) (start : ℕ) (block : List A) (at count : ℕ)
      → at + count ≤ start
      → take count (drop at (write_slice xs start block)) ≡ take count (drop at xs)
  unfolding write_slice
  write_slice_before xs start block zero zero le = refl
  write_slice_before xs zero block zero (suc count) le = absurd (omega arith)
  write_slice_before xs zero block (suc at) count le = absurd (omega arith)
  write_slice_before [] (suc start) block at count le = refl
  write_slice_before (x ∷ xs) (suc start) block zero (suc count) le =
      ap (λ t. x ∷ t) (write_slice_before xs start block zero count (omega arith))
  write_slice_before (x ∷ xs) (suc start) block (suc at) count le =
      write_slice_before xs start block at count (omega arith)

  drop-overwrite :
      (xs block : List A) (at : ℕ) → length block ≤ at → drop at (overwrite xs block) ≡ drop at xs
  unfolding overwrite
  drop-overwrite [] block at le = refl
  drop-overwrite (x ∷ xs) [] at le = refl
  drop-overwrite (x ∷ xs) (y ∷ block) zero le = absurd (omega arith)
  drop-overwrite (x ∷ xs) (y ∷ block) (suc at) le = drop-overwrite xs block at (omega arith)

  -- What stands behind the slice that was written is unchanged.
  pub write_slice_after :
      (xs : List A) (start : ℕ) (block : List A) (at : ℕ)
      → start + length block ≤ at
      → drop at (write_slice xs start block) ≡ drop at xs
  unfolding write_slice
  write_slice_after xs zero block at le = drop-overwrite xs block at (omega arith)
  write_slice_after [] (suc start) block at le = refl
  write_slice_after (x ∷ xs) (suc start) block zero le = absurd (omega arith)
  write_slice_after (x ∷ xs) (suc start) block (suc at) le =
      write_slice_after xs start block at (omega arith)

pub length-add_into {ℓ} :
    {F : Type ℓ} (add : F → F → F) (mixed samples : List F)
    → length (add_into add mixed samples) ≡ length mixed
unfolding add_into
length-add_into add [] samples = refl
length-add_into add (m ∷ mixed) [] = refl
length-add_into add (m ∷ mixed) (s ∷ samples) = ap suc (length-add_into add mixed samples)
