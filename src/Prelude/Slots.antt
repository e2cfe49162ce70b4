-- ===== src/Prelude/Slots.antt =====
-- A queue laid out in an array: the item at position `i` of the queue stands in slot `s i`. The
-- ring of riaps-core and the sample FIFO of riaps-host are both such layouts.
use Prim.Native.Nat.{ℕ, suc, ◌<◌}
use mathlib.Core.Path.{◌≡◌, ◌∙◌, subst, fun_ext}
use mathlib.Core.Logic.{◌≢◌}
use mathlib.Core.List.{List, [], ◌∷◌, ◌++◌}
use mathlib.Core.Option.{some}
use native.Mathlib.Omega.{arith}
use blockcat.Prelude.Lists.{length, get_elem?, set, get_elem?-set_self, get_elem?-set_ne}

module _ {ℓ} {A : Type ℓ} where
  abbrev pub Holds : List A → (ℕ → ℕ) → List A → Type ℓ
  Holds buf s [] = Unit
  Holds buf s (x ∷ q) = (get_elem? buf (s 0) ≡ some x) × Holds buf (λ i. s (suc i)) q

module _ {ℓ} {A : Type ℓ} where
  -- Layouts that agree at every position hold the same queues.
  pub Holds-ext :
      (buf : List A) (s t : ℕ → ℕ) (q : List A)
      → ((i : ℕ) → s i ≡ t i)
      → Holds buf s q
      → Holds buf t q
  Holds-ext buf s t q e h = subst (λ u. Holds buf u q) (fun_ext e) h

  -- A write to a slot that the queue does not use leaves the queue alone.
  pub Holds-set :
      (buf : List A) (s : ℕ → ℕ) (q : List A) (j : ℕ) (v : A)
      → ((i : ℕ) → i < length q → j ≢ s i)
      → Holds buf s q
      → Holds (set buf j v) s q
  Holds-set buf s [] j v clear h = tt
  Holds-set buf s (x ∷ q) j v clear h = (
    get_elem?-set_ne buf j (s 0) v (clear 0 (omega arith)) ∙ h.0,
    Holds-set buf (λ i. s (suc i)) q j v (λ i lt. clear (suc i) (omega arith)) h.1,
  )

  pub Holds-snoc :
      (buf : List A) (s : ℕ → ℕ) (q : List A) (v : A)
      → Holds buf s q
      → get_elem? buf (s (length q)) ≡ some v
      → Holds buf s (q ++ (v ∷ []))
  Holds-snoc buf s [] v h e = (e, tt)
  Holds-snoc buf s (x ∷ q) v h e = (h.0, Holds-snoc buf (λ i. s (suc i)) q v h.1 e)

  -- Writing the next slot appends to the queue.
  pub Holds-push :
      (buf : List A) (s : ℕ → ℕ) (q : List A) (v : A)
      → s (length q) < length buf
      → ((i : ℕ) → i < length q → s (length q) ≢ s i)
      → Holds buf s q
      → Holds (set buf (s (length q)) v) s (q ++ (v ∷ []))
  Holds-push buf s q v fits clear h =
      Holds-snoc (set buf (s (length q)) v) s q v (Holds-set buf s q (s (length q)) v clear h)
        (get_elem?-set_self buf (s (length q)) v fits)
