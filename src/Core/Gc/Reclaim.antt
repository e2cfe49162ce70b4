-- ===== src/Core/Gc/Reclaim.antt =====
-- Physical drops of deferred boxes, one after another: crates/riaps-core/src/memory.rs.
use blockcat.Prelude.{
  ℕ, suc, ◌+◌, ◌%◌, ◌≤◌, ◌<◌, ◌≡◌, ◌≢◌, ◌∙◌, refl, ap, arith, Bool, true, false, not, ◌&&◌, ◌||◌,
  Option, none, some, List, [], ◌∷◌, map, ◌==◌, leb, if◌then◌else◌, length, ◌>>=◌, usize_max,
  ℕ_discrete,
}
use blockcat.Core.Gc.{
  Layout, DropVTable, Box, Heap, GcContext, owns, dealloc, drop_value, of, defer_box,
  drop_and_dealloc,
}

abbrev pub freed : (ℕ → Option Layout) → ℕ → ℕ → Option Layout
freed blocks p a = if a == p then none else blocks a

owns-some :
    (blocks : ℕ → Option Layout) (p : ℕ) (layout : Layout)
    → blocks p ≡ some layout
    → owns blocks p layout ≡ some tt
unfolding owns
owns-some blocks p layout e =
    let same_size : (layout.size == layout.size) ≡ true = ground arith in
    let same_align : (layout.align == layout.align) ≡ true = ground arith in
    rw (e, same_size, same_align) refl

dealloc-some :
    (blocks : ℕ → Option Layout) (p : ℕ) (layout : Layout)
    → blocks p ≡ some layout
    → dealloc blocks p layout ≡ some (freed blocks p)
unfolding dealloc
dealloc-some blocks p layout e = rw (owns-some blocks p layout e) refl

drop_value-some {ℓ} :
    {S : Type ℓ} (blocks : ℕ → Option Layout) (p : ℕ) (vtable : DropVTable S) (s : S)
    → (vtable.layout.size ≢ 0 → blocks p ≡ some vtable.layout)
    → drop_value blocks p vtable s ≡ some (vtable.drop_in_place p s)
unfolding drop_value
drop_value-some blocks p vtable s live = elim (ℕ_discrete vtable.layout.size 0) [
  | yes e ↦ let t : (vtable.layout.size == 0) ≡ true = ground arith in rw t refl
  | no ne ↦
      let t : (vtable.layout.size == 0) ≡ false = ground arith in
      rw (t, owns-some blocks p vtable.layout (live ne)) refl
]

module _ {ℓ} {S : Type ℓ} where
  unfoldable pub drop_all :
      GcContext → List (ℕ × DropVTable S) → Heap S → Option (GcContext × Heap S)
  drop_all gc [] heap = some (gc, heap)
  drop_all gc ((ptr, vtable) ∷ rest) heap = do
    (gc', heap') ← drop_and_dealloc gc ptr vtable heap
    drop_all gc' rest heap'

  -- One of the boxes has its value in a block of the heap at `a`; a value of size 0 needs none.
  unfoldable pub occupies : List (Box S) → ℕ → Bool
  occupies [] a = false
  occupies (b ∷ bs) a = ((b.address == a) && not (b.sort.layout.size == 0)) || occupies bs a

  -- What Rust keeps up for a box.
  pub record IsBox (blocks : ℕ → Option Layout) (b : Box S) : Type 0 where
    pub not_null : b.address ≢ 0
    pub aligned : b.address % b.sort.layout.align ≡ 0
    pub allocated : b.sort.layout.size ≢ 0 → blocks b.address ≡ some b.sort.layout

  -- Boxes that are live at the same time: no two of them have the same block.
  unfoldable pub AreLive : (ℕ → Option Layout) → List (Box S) → Type 0
  AreLive blocks [] = Unit
  AreLive blocks (b ∷ bs) =
      IsBox blocks b × (b.sort.layout.size ≢ 0 → occupies bs b.address ≡ false) × AreLive blocks bs

  -- The destructors, in order.
  unfoldable pub destroyed : List (Box S) → S → S
  destroyed [] s = s
  destroyed (b ∷ bs) s = destroyed bs (b.sort.destroy b.address s)

  freed-IsBox :
      (blocks : ℕ → Option Layout) (p : ℕ) (b : Box S)
      → (b.sort.layout.size ≢ 0 → b.address ≢ p)
      → IsBox blocks b
      → IsBox (freed blocks p) b
  freed-IsBox blocks p b apart i = record {
    not_null = i.not_null;
    aligned = i.aligned;
    allocated = λ big.
        let other : (b.address == p) ≡ false = (let ne = apart big in ground arith) in
        rw other (i.allocated big);
  }

  freed-AreLive :
      (blocks : ℕ → Option Layout) (p : ℕ) (bs : List (Box S))
      → occupies bs p ≡ false
      → AreLive blocks bs
      → AreLive (freed blocks p) bs
  unfolding occupies AreLive
  freed-AreLive blocks p [] e live = tt
  freed-AreLive blocks p (b ∷ bs) e (here, alone, rest) = (
    freed-IsBox blocks p b (λ big same. ground arith) here,
    alone,
    freed-AreLive blocks p bs (ground arith) rest,
  )

  -- A value of size 0 is dropped, and no block is freed.
  drop_empty :
      (gc : GcContext) (b : Box S) (heap : Heap S)
      → IsBox heap.blocks b
      → gc.reclaimed < usize_max
      → b.sort.layout.size ≡ 0
      → drop_and_dealloc gc b.address (of b.sort) heap
        ≡ some (
          record { reclaimed = gc.reclaimed + 1 },
          record { blocks = heap.blocks; state = b.sort.destroy b.address heap.state },
        )
  unfolding drop_and_dealloc of
  drop_empty gc b heap i lt e =
      let t₁ : (b.address == 0) ≡ false = (let n = i.not_null in ground arith) in
      let t₂ : (b.address % b.sort.layout.align == 0) ≡ true =
        (let n = i.aligned in ground arith) in
      let t₃ : (b.sort.layout.size == 0) ≡ true = ground arith in
      let t₄ : leb (gc.reclaimed + 1) usize_max ≡ true = ground arith in
      rw (t₁, t₂, drop_value-some heap.blocks b.address (of b.sort) heap.state i.allocated, t₃, t₄)
        refl

  drop_sized :
      (gc : GcContext) (b : Box S) (heap : Heap S)
      → IsBox heap.blocks b
      → gc.reclaimed < usize_max
      → b.sort.layout.size ≢ 0
      → drop_and_dealloc gc b.address (of b.sort) heap
        ≡ some (
          record { reclaimed = gc.reclaimed + 1 },
          record {
            blocks = freed heap.blocks b.address;
            state = b.sort.destroy b.address heap.state;
          },
        )
  unfolding drop_and_dealloc of
  drop_sized gc b heap i lt ne =
      let t₁ : (b.address == 0) ≡ false = (let n = i.not_null in ground arith) in
      let t₂ : (b.address % b.sort.layout.align == 0) ≡ true =
        (let n = i.aligned in ground arith) in
      let t₃ : (b.sort.layout.size == 0) ≡ false = ground arith in
      let t₄ : leb (gc.reclaimed + 1) usize_max ≡ true = ground arith in
      rw
        (
          t₁,
          t₂,
          drop_value-some heap.blocks b.address (of b.sort) heap.state i.allocated,
          t₃,
          dealloc-some heap.blocks b.address b.sort.layout (i.allocated ne),
          t₄,
        )
        refl

  -- What is left to show once the first box is dropped.
  answer :
      (gc : GcContext) (b : Box S) (bs : List (Box S)) (heap heap₁ heap' : Heap S)
      → drop_and_dealloc gc b.address (of b.sort) heap
        ≡ some (record { reclaimed = gc.reclaimed + 1 }, heap₁)
      → drop_all (record { reclaimed = gc.reclaimed + 1 }) (map defer_box bs) heap₁
        ≡ some (record { reclaimed = gc.reclaimed + 1 + length bs }, heap')
      → drop_all gc (map defer_box (b ∷ bs)) heap
        ≡ some (record { reclaimed = gc.reclaimed + length (b ∷ bs) }, heap')
  unfolding drop_all defer_box
  answer gc b bs heap heap₁ heap' e e' =
      let same : gc.reclaimed + 1 + length bs ≡ gc.reclaimed + suc (length bs) = omega arith in
      rw e (e' ∙ ap (λ k. some (record { reclaimed = k }, heap')) same)

  occupies-empty :
      (b : Box S) (bs : List (Box S)) (a : ℕ)
      → b.sort.layout.size ≡ 0
      → occupies bs a ≡ occupies (b ∷ bs) a
  unfolding occupies
  occupies-empty b bs a e = ground arith

  occupies-sized :
      (blocks : ℕ → Option Layout) (b : Box S) (bs : List (Box S)) (a : ℕ)
      → b.sort.layout.size ≢ 0
      → (if occupies bs a then none else freed blocks b.address a)
        ≡ (if occupies (b ∷ bs) a then none else blocks a)
  unfolding occupies
  occupies-sized blocks b bs a ne = ground arith

  -- Boxes of any types that are live at the same time, so that no two of them have a block in
  -- common, are deferred with `defer_box` and then all dropped with `drop_and_dealloc`; fewer than
  -- 2^64 objects are dropped in the life of the context. Then nothing is undefined and no assertion
  -- fails, the context counts every one of them, every destructor has run once, in order, the block
  -- of every box with a value of a size above 0 is free, and all other blocks are as they were.
  pub deferred_drop :
      (bs : List (Box S)) (gc : GcContext) (heap : Heap S)
      → AreLive heap.blocks bs
      → gc.reclaimed + length bs ≤ usize_max
      → (heap' : Heap S) × (drop_all gc (map defer_box bs) heap
          ≡ some (record { reclaimed = gc.reclaimed + length bs }, heap'))
        × (heap'.state ≡ destroyed bs heap.state)
        × ((a : ℕ) → heap'.blocks a ≡ (if occupies bs a then none else heap.blocks a))
  unfolding drop_all occupies AreLive destroyed
  deferred_drop [] gc heap live fits =
      let same : gc.reclaimed ≡ gc.reclaimed + 0 = omega arith in
      (heap, ap (λ k. some (record { reclaimed = k }, heap)) same, refl, λ a. refl)
  deferred_drop (b ∷ bs) gc heap (here, alone, rest) fits = elim (ℕ_discrete b.sort.layout.size 0) [
    | yes zero_size ↦
        let heap₁ : Heap S = record {
          blocks = heap.blocks;
          state = b.sort.destroy b.address heap.state;
        } in
        let (heap', e, s, left) =
          deferred_drop bs (record { reclaimed = gc.reclaimed + 1 }) heap₁ rest (omega arith) in
        (
          heap',
          answer gc b bs heap heap₁ heap' (drop_empty gc b heap here (omega arith) zero_size) e,
          s,
          λ a.
              left a
              ∙ ap (λ o. if o then none else heap.blocks a) (occupies-empty b bs a zero_size),
        )
    | no sized ↦
        let heap₁ : Heap S = record {
          blocks = freed heap.blocks b.address;
          state = b.sort.destroy b.address heap.state;
        } in
        let (heap', e, s, left) =
          deferred_drop bs (record { reclaimed = gc.reclaimed + 1 }) heap₁
            (freed-AreLive heap.blocks b.address bs (alone sized) rest) (omega arith) in
        (
          heap',
          answer gc b bs heap heap₁ heap' (drop_sized gc b heap here (omega arith) sized) e,
          s,
          λ a. left a ∙ occupies-sized heap.blocks b bs a sized,
        )
  ]
