-- ===== src/Core/Spsc/Atomic/Turns.antt =====
-- One thread of crates/riaps-core/src/spsc.rs at a time: what its next step is where the other one
-- stands still.
use blockcat.Prelude.{
  ℕ, zero, suc, Bool, true, false, ◌%◌, ◌≡◌, ◌≢◌, ◌∙◌, refl, sym, ap, arith, Option, none, some, [],
  ◌∷◌, ◌++◌, ◌==◌, if◌then◌else◌, set, wrapping_add, wrapping_sub,
}
use blockcat.Core.Spsc.{read_slot}
use blockcat.Core.Spsc.Atomic.{
  Producer, calm, has_tail, has_head, has_written, load_tail, load_head, refuse, write, store_tail,
  Consumer, quiet, saw_head, saw_tail, has_taken, Shared, Step, see_head, see_tail, give_up, read,
  store_head,
}

is_calm {ℓ} : {A : Type ℓ} → Producer A → Bool
is_calm calm = true
is_calm _ = false

-- A producer stands at one place.
one_place {ℓ} : {A : Type ℓ} (p q : Producer A) → p ≡ q → is_calm p ≡ true → is_calm q ≡ false → ⊥
one_place p q e rest busy = let t = ap is_calm e in ground arith

module _ {ℓ} {A : Type ℓ} {n : ℕ} where
  -- The step is one of `push`; the others are those of `pop`.
  unfoldable pub is_push : (s s' : Shared A n) → Step s s' → Bool
  is_push s _ (load_tail value e) = true
  is_push s _ (load_head value tail e) = true
  is_push s _ (refuse value tail head e full) = true
  is_push s _ (write value tail head e room) = true
  is_push s _ (store_tail value tail e) = true
  is_push s _ (see_head e) = false
  is_push s _ (see_tail head e) = false
  is_push s _ (give_up head tail e same) = false
  is_push s _ (read head tail value e ne found) = false
  is_push s _ (store_head head value e) = false

  -- Steps of one thread alone, the producer or the consumer, one after another, and how many.
  pub data Run (pushes : Bool) (s : Shared A n) : ℕ → Shared A n → Type ℓ where
    stay : Run pushes s 0 s
    go :
        (k : ℕ) (t u : Shared A n)
        → Run pushes s k t
        → (step : Step t u) → is_push t u step ≡ pushes
        → Run pushes s (suc k) u

  -- The consumer reads `slot`.
  takes : Option A → ℕ → Shared A n → Shared A n
  takes none head s = s
  takes (some value) head s = record s {
    ring = record s.ring { buf = set s.ring.buf (head % n) none };
    consumer = has_taken head value;
  }

  -- The next step of a consumer.
  next_pop : Consumer A → Shared A n → Shared A n
  next_pop quiet s = record s { consumer = saw_head s.ring.head }
  next_pop (saw_head head) s = record s { consumer = saw_tail head s.ring.tail }
  next_pop (saw_tail head tail) s =
      if tail == head
      then record s { consumer = quiet }
      else takes (read_slot s.ring.buf (head % n)) head s
  next_pop (has_taken head value) s = record s {
    ring = record s.ring { head = wrapping_add head 1 };
    consumer = quiet;
    popped = s.popped ++ (value ∷ []);
  }

  Step-next_pop :
      (s s' : Shared A n) (step : Step s s')
      → is_push s s' step ≡ false
      → s' ≡ next_pop s.consumer s
  unfolding is_push next_pop takes
  Step-next_pop s _ (load_tail value e) off = absurd (ground (arith, off))
  Step-next_pop s _ (load_head value tail e) off = absurd (ground (arith, off))
  Step-next_pop s _ (refuse value tail head e full) off = absurd (ground (arith, off))
  Step-next_pop s _ (write value tail head e room) off = absurd (ground (arith, off))
  Step-next_pop s _ (store_tail value tail e) off = absurd (ground (arith, off))
  Step-next_pop s _ (see_head e) off = ap (λ c. next_pop c s) (sym e)
  Step-next_pop s _ (see_tail head e) off = ap (λ c. next_pop c s) (sym e)
  Step-next_pop s _ (give_up head tail e same) off =
      let t : true ≡ (tail == head) = ground arith in
      ap
        (λ b.
          if b
          then record s { consumer = quiet }
          else takes (read_slot s.ring.buf (head % n)) head s)
        t
      ∙ ap (λ c. next_pop c s) (sym e)
  Step-next_pop s _ (read head tail value e ne found) off =
      let t : false ≡ (tail == head) = ground arith in
      ap (λ o. takes o head s) (sym found)
      ∙ ap
          (λ b.
            if b
            then record s { consumer = quiet }
            else takes (read_slot s.ring.buf (head % n)) head s)
          t
      ∙ ap (λ c. next_pop c s) (sym e)
  Step-next_pop s _ (store_head head value e) off = ap (λ c. next_pop c s) (sym e)

  -- The steps of the consumer leave it no choice.
  pub Run-unique : (s t t' : Shared A n) (k : ℕ) → Run false s k t → Run false s k t' → t ≡ t'
  Run-unique s t t' k r r' = from k t r ∙ sym (from k t' r')
    where
      after : ℕ → Shared A n
      after zero = s
      after (suc k) = let t = after k in next_pop t.consumer t

      from : (k : ℕ) (t : Shared A n) → Run false s k t → t ≡ after k
      from _ _ stay = refl
      from _ _ (go k t u run step off) =
          Step-next_pop t u step off ∙ ap (λ v. next_pop v.consumer v) (from k t run)

  -- The next step of a producer that is in the middle of `push`.
  next_push : Producer A → Shared A n → Shared A n
  next_push calm s = s
  next_push (has_tail value tail) s = record s { producer = has_head value tail s.ring.head }
  next_push (has_head value tail head) s =
      if wrapping_sub tail head == n then record s { producer = calm } else record s {
        ring = record s.ring { buf = set s.ring.buf (tail % n) (some value) };
        producer = has_written value tail;
      }
  next_push (has_written value tail) s = record s {
    ring = record s.ring { tail = wrapping_add tail 1 };
    producer = calm;
    pushed = s.pushed ++ (value ∷ []);
  }

  Step-next_push :
      (s s' : Shared A n) (step : Step s s')
      → is_push s s' step ≡ true
      → is_calm s.producer ≡ false
      → s' ≡ next_push s.producer s
  unfolding is_push next_push is_calm
  Step-next_push s _ (load_tail value e) on busy = absurd (one_place _ _ (sym e) refl busy)
  Step-next_push s _ (load_head value tail e) on busy = ap (λ c. next_push c s) (sym e)
  Step-next_push s s' (refuse value tail head e full) on busy =
      let t : true ≡ (wrapping_sub tail head == n) = ground arith in
      ap
        (λ b. if b then s' else record s {
          ring = record s.ring { buf = set s.ring.buf (tail % n) (some value) };
          producer = has_written value tail;
        })
        t
      ∙ ap (λ c. next_push c s) (sym e)
  Step-next_push s s' (write value tail head e room) on busy =
      let t : false ≡ (wrapping_sub tail head == n) = ground arith in
      ap (λ b. if b then record s { producer = calm } else s') t ∙ ap (λ c. next_push c s) (sym e)
  Step-next_push s _ (store_tail value tail e) on busy = ap (λ c. next_push c s) (sym e)
  Step-next_push s _ (see_head e) on busy = absurd (ground (arith, on))
  Step-next_push s _ (see_tail head e) on busy = absurd (ground (arith, on))
  Step-next_push s _ (give_up head tail e same) on busy = absurd (ground (arith, on))
  Step-next_push s _ (read head tail value e ne found) on busy = absurd (ground (arith, on))
  Step-next_push s _ (store_head head value e) on busy = absurd (ground (arith, on))

  first_push :
      (s s' : Shared A n) (step : Step s s')
      → is_push s s' step ≡ true
      → s.producer ≡ calm
      → (value : A) × (s' ≡ record s { producer = has_tail value s.ring.tail })
  unfolding is_push is_calm
  first_push s _ (load_tail value e) on rest = (value, refl)
  first_push s _ (load_head value tail e) on rest = absurd (one_place _ _ (sym rest ∙ e) refl refl)
  first_push s _ (refuse value tail head e full) on rest =
      absurd (one_place _ _ (sym rest ∙ e) refl refl)
  first_push s _ (write value tail head e room) on rest =
      absurd (one_place _ _ (sym rest ∙ e) refl refl)
  first_push s _ (store_tail value tail e) on rest = absurd (one_place _ _ (sym rest ∙ e) refl refl)
  first_push s _ (see_head e) on rest = absurd (ground (arith, on))
  first_push s _ (see_tail head e) on rest = absurd (ground (arith, on))
  first_push s _ (give_up head tail e same) on rest = absurd (ground (arith, on))
  first_push s _ (read head tail value e ne found) on rest = absurd (ground (arith, on))
  first_push s _ (store_head head value e) on rest = absurd (ground (arith, on))

  -- A step in the middle of `push`, from a state that is known.
  then_push :
      (s t u : Shared A n) (step : Step t u)
      → is_push t u step ≡ true
      → t ≡ s
      → is_calm s.producer ≡ false
      → u ≡ next_push s.producer s
  then_push s t u step on same busy =
      Step-next_push t u step on (ap (λ v. is_calm v.producer) same ∙ busy)
      ∙ ap (λ v. next_push v.producer v) same

  -- Four steps of a producer that is at rest push a value, where the ring is not full.
  pub Run-pushes :
      (s t : Shared A n)
      → s.producer ≡ calm
      → wrapping_sub s.ring.tail s.ring.head ≢ n
      → Run true s 4 t
      → (value : A) × (t.pushed ≡ s.pushed ++ (value ∷ []))
  unfolding next_push is_calm
  Run-pushes s t rest room
        (go _ t₃ _ (go _ t₂ _ (go _ t₁ _ (go _ _ _ stay a₁ b₁) a₂ b₂) a₃ b₃) a₄ b₄) =
      let (value, e₁) = first_push s t₁ a₁ b₁ rest in
      let s₁ : Shared A n = record s { producer = has_tail value s.ring.tail } in
      let s₂ : Shared A n = record s { producer = has_head value s.ring.tail s.ring.head } in
      let s₃ : Shared A n = record s {
        ring = record s.ring { buf = set s.ring.buf (s.ring.tail % n) (some value) };
        producer = has_written value s.ring.tail;
      } in
      let e₂ : t₂ ≡ s₂ = then_push s₁ t₁ t₂ a₂ b₂ e₁ refl in
      let free : (wrapping_sub s.ring.tail s.ring.head == n) ≡ false = ground arith in
      let e₃ : t₃ ≡ s₃ =
        then_push s₂ t₂ t₃ a₃ b₃ e₂ refl
        ∙ ap (λ b. if b then record s { producer = calm } else s₃) free in
      (value, ap (λ v. v.pushed) (then_push s₃ t₃ t a₄ b₄ e₃ refl))
