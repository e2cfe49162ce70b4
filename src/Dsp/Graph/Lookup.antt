-- ===== src/Dsp/Graph/Lookup.antt =====
-- A vector of crates/riaps-dsp/src/graph.rs as a function on the numbers below its length.
use mathlib.Core.Option
use blockcat.Prelude.{
  [], ◌∷◌, map, length-map, ℕ, zero, suc, ◌<◌, ◌≡◌, ◌∙◌, refl, sym, ap, arith, true, false,
  ℕ_discrete, some, List, ◌==◌, if◌then◌else◌, length, length-replicate, length-set, get_elem?,
  get_elem?-set_self, get_elem?-set_ne, set, replicate,
}

module _ {ℓ} {A : Type ℓ} where
  abbrev pub update : (ℕ → A) → ℕ → A → ℕ → A
  update f i v j = if j == i then v else f j

  pub record IsTable (xs : List A) (n : ℕ) (f : ℕ → A) : Type ℓ where
    pub size : length xs ≡ n
    pub entry : (i : ℕ) → i < n → get_elem? xs i ≡ some (f i)

  get_elem?-replicate : (n i : ℕ) (v : A) → i < n → get_elem? (replicate n v) i ≡ some v
  get_elem?-replicate zero i v lt = absurd (omega arith)
  get_elem?-replicate (suc n) zero v lt = refl
  get_elem?-replicate (suc n) (suc i) v lt = get_elem?-replicate n i v (omega arith)

  pub replicate-IsTable : (n : ℕ) (v : A) → IsTable (replicate n v) n (λ i. v)
  replicate-IsTable n v = record {
    size = length-replicate n v;
    entry = λ i lt. get_elem?-replicate n i v lt;
  }

  pub IsTable-ext :
      (xs : List A) (n : ℕ) (f g : ℕ → A)
      → ((i : ℕ) → i < n → f i ≡ g i)
      → IsTable xs n f
      → IsTable xs n g
  IsTable-ext xs n f g e t = record {
    size = t.size;
    entry = λ i lt. t.entry i lt ∙ ap some (e i lt);
  }

  pub set-IsTable :
      (xs : List A) (n : ℕ) (f : ℕ → A) (i : ℕ) (v : A)
      → i < n
      → IsTable xs n f
      → IsTable (set xs i v) n (update f i v)
  set-IsTable xs n f i v lt t = record {
    size = length-set xs i v ∙ t.size;
    entry = λ j below. elim (ℕ_discrete j i) [
      | yes same ↦
          let e : (j == i) ≡ true = ground arith in
          ap (get_elem? (set xs i v)) same
          ∙ get_elem?-set_self xs i v (omega (arith, t.size))
          ∙ ap (λ b. some (if b then v else f j)) (sym e)
      | no ne ↦
          let e : (j == i) ≡ false = ground arith in
          get_elem?-set_ne xs i j v (λ same. ne (sym same))
          ∙ t.entry j below
          ∙ ap (λ b. some (if b then v else f j)) (sym e)
    ];
  }

  get_elem?-map :
      (h : A → A) (xs : List A) (i : ℕ) (v : A)
      → get_elem? xs i ≡ some v
      → get_elem? (map h xs) i ≡ some (h v)
  get_elem?-map h [] i v e = absurd (ground (arith, e))
  get_elem?-map h (x ∷ xs) zero v e = ap (Option.map h) e
  get_elem?-map h (x ∷ xs) (suc i) v e = get_elem?-map h xs i v e

  pub map-IsTable :
      (h : A → A) (xs : List A) (n : ℕ) (f : ℕ → A)
      → IsTable xs n f
      → IsTable (map h xs) n (λ i. h (f i))
  map-IsTable h xs n f t = record {
    size = length-map h xs ∙ t.size;
    entry = λ i lt. get_elem?-map h xs i (f i) (t.entry i lt);
  }
