-- ===== src/Host/Fifo/Queue.antt =====
-- The sample FIFO of crates/riaps-host/src/adapter_buf.rs holds a queue, oldest sample first.
use native.Mathlib.Nat.{add-zero, mod-eq_of_lt, mod-add-mod}
use blockcat.Prelude.{
  ℕ, zero, suc, ◌+◌, ◌-◌, ◌%◌, min, ◌≤◌, ◌<◌, ◌≡◌, ◌∙◌, sym, ap, refl, arith, Option, none, some,
  List, [], ◌∷◌, ◌++◌, length, get_elem?, take, replicate, length-take, length-append,
  length-replicate, Holds-ext, subst, ◌>>=◌,
}
use mathlib.Core.Path.{fun_ext}
use blockcat.Host.Fifo.{
  SampleFifo, advance, new, write_one, write_all, write_zeros, push_slice, push_zeros, pop,
}
use blockcat.Host.Fifo.Layout.{place, advance-mod, IsLaid, write_all-Wrote}

module _ {ℓ} {A : Type ℓ} where
  -- Pushing zeros is pushing a slice of silence.
  pub write_zeros-eq-write_all :
      (silence : A) (k : ℕ) (f : SampleFifo A)
      → write_zeros silence f k ≡ write_all f (replicate k silence)
  unfolding write_zeros write_all
  write_zeros-eq-write_all silence zero f = refl
  write_zeros-eq-write_all silence (suc k) f =
      ap (λ g. write_one f silence >>= g) (fun_ext (λ f'. write_zeros-eq-write_all silence k f'))

module _ {ℓ} {A : Type ℓ} (c : ℕ) where
  -- A FIFO of `c` samples that holds `q`.
  pub record Models (f : SampleFifo A) (q : List A) : Type ℓ where
    pub laid : IsLaid c f q
    pub count : f.len ≡ length q
    pub room : length q ≤ c

  pub positive : (f : SampleFifo A) (q : List A) → Models f q → 0 < c
  positive f q m = omega (arith, m.laid.read_in)

  -- A push returned `accepted` and left the FIFO holding `q`.
  abbrev pub Pushed : Option (ℕ × SampleFifo A) → ℕ → List A → Type ℓ
  Pushed result accepted q = (f' : SampleFifo A) × (result ≡ some (accepted, f')) × Models f' q

  -- How many of `k` samples fit behind `q`.
  abbrev pub fitting : List A → ℕ → ℕ
  fitting q k = min k (c - length q)

  pub new-Models :
      (silence : A) → 0 < c → (f : SampleFifo A) × (new silence c ≡ some f) × Models f []
  unfolding new
  new-Models silence pos = (
    record { storage = replicate c silence; read = 0; write = 0; len = 0 },
    ground arith,
    record {
      laid = record {
        size = length-replicate c silence;
        read_in = pos;
        write_at = sym (mod-eq_of_lt pos);
        held = tt;
      };
      count = refl;
      room = omega arith;
    },
  )

  -- `len` counts the samples that a push loop has written.
  Wrote-Models :
      (f f' : SampleFifo A) (q xs : List A) (k : ℕ)
      → Models f q
      → IsLaid c f' (q ++ xs)
      → f'.len ≡ f.len
      → length xs ≡ k
      → length q + k ≤ c
      → Models (record f' { len = f'.len + k }) (q ++ xs)
  Wrote-Models f f' q xs k m l el n fits = record {
    laid = record { size = l.size; read_in = l.read_in; write_at = l.write_at; held = l.held };
    count = omega (arith, el, m.count, n, length-append q xs);
    room = omega (arith, n, fits, length-append q xs);
  }

  push_slice_of :
      (f : SampleFifo A) {f' : SampleFifo A} (xs : List A) (k : ℕ)
      → min (length xs) (length f.storage - f.len) ≡ k
      → write_all f (take k xs) ≡ some f'
      → push_slice f xs ≡ some (k, record f' { len = f'.len + k })
  unfolding push_slice
  push_slice_of f {f'} xs k e w = rw (e, w)

  pub push_slice-Pushed :
      (f : SampleFifo A) (q xs : List A)
      → Models f q
      → Pushed (push_slice f xs) (fitting q (length xs)) (q ++ take (fitting q (length xs)) xs)
  push_slice-Pushed f q xs m =
      let k : ℕ = fitting q (length xs) in
      let e : min (length xs) (length f.storage - f.len) ≡ k =
        omega (arith, m.laid.size, m.count) in
      let n : length (take k xs) ≡ k = omega (arith, length-take k xs) in
      let (f', w, l, er, el) =
        write_all-Wrote c (take k xs) f q m.laid (omega (arith, n, m.room)) in
      (
        record f' { len = f'.len + k },
        push_slice_of f xs k e w,
        Wrote-Models f f' q (take k xs) k m l el n (omega (arith, m.room)),
      )

  push_zeros_of :
      (silence : A) (f : SampleFifo A) {f' : SampleFifo A} (count k : ℕ)
      → min count (length f.storage - f.len) ≡ k
      → write_zeros silence f k ≡ some f'
      → push_zeros silence f count ≡ some (k, record f' { len = f'.len + k })
  unfolding push_zeros
  push_zeros_of silence f {f'} count k e w = rw (e, w)

  pub push_zeros-Pushed :
      (silence : A) (f : SampleFifo A) (q : List A) (count : ℕ)
      → Models f q
      → Pushed
          (push_zeros silence f count)
          (fitting q count)
          (q ++ replicate (fitting q count) silence)
  push_zeros-Pushed silence f q count m =
      let k : ℕ = fitting q count in
      let e : min count (length f.storage - f.len) ≡ k = omega (arith, m.laid.size, m.count) in
      let n : length (replicate k silence) ≡ k = length-replicate k silence in
      let (f', w, l, er, el) =
        write_all-Wrote c (replicate k silence) f q m.laid (omega (arith, n, m.room)) in
      (
        record f' { len = f'.len + k },
        push_zeros_of silence f count k e (write_zeros-eq-write_all silence k f ∙ w),
        Wrote-Models f f' q (replicate k silence) k m l el n (omega (arith, m.room)),
      )

  pub pop_empty : (f : SampleFifo A) → Models f [] → pop f ≡ some (none, f)
  unfolding pop
  pop_empty f m = ground (arith, m.count)

  oldest :
      (f : SampleFifo A) (x : A) (q : List A)
      → Models f (x ∷ q)
      → get_elem? f.storage f.read ≡ some x
  oldest f x q m =
      subst (λ i. get_elem? f.storage i ≡ some x)
        (ap (λ i. i % c) (add-zero f.read) ∙ mod-eq_of_lt m.laid.read_in) m.laid.held.0

  abbrev after_pop : SampleFifo A → SampleFifo A
  after_pop f = record f { read = advance (length f.storage) f.read; len = f.len - 1 }

  after_pop-Models :
      (f : SampleFifo A) (x : A) (q : List A) → Models f (x ∷ q) → Models (after_pop f) q
  after_pop-Models f x q m = record {
    laid = record {
      size = m.laid.size;
      read_in = omega (arith, stepped, m.laid.read_in);
      write_at = m.laid.write_at ∙ shift (length q);
      held =
          Holds-ext f.storage (λ i. place c f.read (suc i))
            (place c (advance (length f.storage) f.read)) q shift m.laid.held.1;
    };
    count = omega (arith, m.count);
    room = omega (arith, m.room);
  }
    where
      stepped : advance (length f.storage) f.read ≡ (f.read + 1) % c
      stepped = ap (λ k. advance k f.read) m.laid.size ∙ advance-mod c f.read m.laid.read_in

      shift : (i : ℕ) → place c f.read (suc i) ≡ place c (advance (length f.storage) f.read) i
      shift i =
          ap (λ k. k % c) (omega arith)
          ∙ sym (mod-add-mod (f.read + 1) c i)
          ∙ ap (λ k. (k + i) % c) (sym stepped)

  pub pop-some :
      (f : SampleFifo A) (x : A) (q : List A)
      → Models f (x ∷ q)
      → (f' : SampleFifo A) × (pop f ≡ some (some x, f')) × Models f' q
  unfolding pop
  pop-some f x q m =
      (after_pop f, ground (arith, oldest f x q m, m.count), after_pop-Models f x q m)
