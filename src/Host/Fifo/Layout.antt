-- ===== src/Host/Fifo/Layout.antt =====
-- Where the samples of a FIFO stand, and that a write appends one.
use native.Mathlib.Nat.{mod-eq_of_lt, mod_self, mod-add-mod, mod-lt}
use blockcat.Prelude.{
  add-mod-ne, ℕ, ◌+◌, ◌-◌, ◌%◌, ◌≤◌, ◌<◌, ◌≡◌, ◌≢◌, ℕ_discrete, ◌∙◌, ap, refl, arith, Option, some,
  List, [], ◌∷◌, ◌++◌, length, set, length-set, length-append, Holds, Holds-push, subst,
  append_assoc, append-nil,
}
use blockcat.Host.Fifo.{SampleFifo, advance, write_one, write_all}

abbrev pub place : ℕ → ℕ → ℕ → ℕ
place c read i = (read + i) % c

pub advance-mod : (c i : ℕ) → i < c → advance c i ≡ (i + 1) % c
advance-mod c i lt = elim (ℕ_discrete (i + 1) c) [
  | yes e ↦ ground (arith, mod_self c)
  | no ne ↦ ground (arith, mod-eq_of_lt {n = i + 1} {m = c} (omega arith))
]

module _ {ℓ} {A : Type ℓ} (c : ℕ) where
  -- The slots of `q` in storage of `c` samples. The field `len` is no part of it.
  pub record IsLaid (f : SampleFifo A) (q : List A) : Type ℓ where
    pub size : length f.storage ≡ c
    pub read_in : f.read < c
    pub write_at : f.write ≡ place c f.read (length q)
    pub held : Holds f.storage (place c f.read) q

  -- What a push loop leaves: the samples `q`, with `read` and `len` untouched.
  abbrev pub Wrote : SampleFifo A → Option (SampleFifo A) → List A → Type ℓ
  Wrote f result q =
      (f' : SampleFifo A) × (result ≡ some f') × IsLaid f' q × (f'.read ≡ f.read) × (f'.len ≡ f.len)

  pub write_one-Wrote :
      (f : SampleFifo A) (q : List A) (x : A)
      → IsLaid f q
      → length q < c
      → Wrote f (write_one f x) (q ++ (x ∷ []))
  unfolding write_one
  write_one-Wrote f q x l lt = (
    record f { storage = set f.storage f.write x; write = advance (length f.storage) f.write },
    ground (arith, l.size, within),
    record {
      size = length-set f.storage f.write x ∙ l.size;
      read_in = l.read_in;
      write_at = moved;
      held = placed;
    },
    refl,
    refl,
  )
    where
      within : f.write < c
      within = omega (arith, l.write_at, l.read_in, mod-lt (f.read + length q) {m = c})

      moved : advance (length f.storage) f.write ≡ place c f.read (length (q ++ (x ∷ [])))
      moved =
          ap (λ k. advance k f.write) l.size
          ∙ advance-mod c f.write within
          ∙ ap (λ k. (k + 1) % c) l.write_at
          ∙ mod-add-mod (f.read + length q) c 1
          ∙ ap (λ k. k % c) (omega (arith, length-append q (x ∷ [])))

      apart : (i : ℕ) → i < length q → place c f.read (length q) ≢ place c f.read i
      apart i below e =
          add-mod-ne c (f.read + i) (length q - i) (omega arith) (omega arith)
            (ap (λ k. k % c) (omega arith) ∙ e)

      placed : Holds (set f.storage f.write x) (place c f.read) (q ++ (x ∷ []))
      placed = rw l.write_at (
          Holds-push f.storage (place c f.read) q x (omega (arith, l.write_at, within, l.size))
            apart l.held)

  pub write_all-Wrote :
      (xs : List A) (f : SampleFifo A) (q : List A)
      → IsLaid f q
      → length q + length xs ≤ c
      → Wrote f (write_all f xs) (q ++ xs)
  unfolding write_all
  write_all-Wrote [] f q l fits = (f, refl, rw append-nil l, refl, refl)
  write_all-Wrote (x ∷ xs) f q l fits =
      let (f', e, l', er, el) = write_one-Wrote f q x l (omega arith) in
      let (f'', e', l'', er', el') =
        write_all-Wrote xs f' (q ++ (x ∷ [])) l' (omega (arith, length-append q (x ∷ []))) in
      (
        f'',
        ground (arith, e, e'),
        subst (IsLaid f'') (append_assoc q (x ∷ []) xs) l'',
        er' ∙ er,
        el' ∙ el,
      )
