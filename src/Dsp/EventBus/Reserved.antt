-- ===== src/Dsp/EventBus/Reserved.antt =====
-- The slots that crates/riaps-dsp/src/event_bus.rs reserves for fatal events.
use blockcat.Prelude.{
  ℕ, ◌+◌, ◌-◌, ◌≤◌, ◌<◌, ◌≡◌, ◌∙◌, refl, ap, arith, true, false, Bool-cases, inl, inr, List, [],
  ◌∷◌, ◌++◌, length, length-append, append-nil, if◌then◌else◌,
}
use blockcat.Dsp.EventBus.{KernelEvent, reserved_slots, is_fatal}
use blockcat.Dsp.EventBus.Models.{accepts}

-- The events of a list that are fatal.
unfoldable pub fatals : List KernelEvent → List KernelEvent
fatals [] = []
fatals (e ∷ es) = if is_fatal e then e ∷ fatals es else fatals es

pub fatals-append : (xs ys : List KernelEvent) → fatals (xs ++ ys) ≡ fatals xs ++ fatals ys
unfolding fatals
fatals-append [] ys = refl
fatals-append (x ∷ xs) ys = elim (Bool-cases (is_fatal x)) [
  | inl e ↦ rw (e, fatals-append xs ys)
  | inr e ↦ rw (e, fatals-append xs ys)
]

pub fatals_minor : (e : KernelEvent) → is_fatal e ≡ false → fatals (e ∷ []) ≡ []
unfolding fatals
fatals_minor e minor = rw minor

pub fatals_fatal : (e : KernelEvent) → is_fatal e ≡ true → fatals (e ∷ []) ≡ e ∷ []
unfolding fatals
fatals_fatal e fatal = rw fatal

-- The last eight slots hold fatal events only, and there is room for `k` more of them.
pub record IsReserved (n : ℕ) (q : List KernelEvent) (k : ℕ) : Type 0 where
  pub slots : length q + reserved_slots ≤ n + length (fatals q)
  pub allowance : length (fatals q) + k ≤ reserved_slots

module _ (n : ℕ) (q : List KernelEvent) (e : KernelEvent) where
  pub accepts_fatal : is_fatal e ≡ true → length q < n → accepts n q e ≡ true
  unfolding accepts
  accepts_fatal fatal room = ground arith

  pub accepts_room : accepts n q e ≡ true → is_fatal e ≡ false → length q + reserved_slots < n
  unfolding accepts
  accepts_room fits minor = ground arith

module _ {n : ℕ} where
  pub append_fatal :
      (q : List KernelEvent) (e : KernelEvent) (k : ℕ)
      → is_fatal e ≡ true
      → 0 < k
      → IsReserved n q k
      → IsReserved n (q ++ (e ∷ [])) (k - 1)
  append_fatal q e k fatal pos r =
      let more : length (fatals (q ++ (e ∷ []))) ≡ length (fatals q) + 1 =
        ap length (fatals-append q (e ∷ []) ∙ ap (λ t. fatals q ++ t) (fatals_fatal e fatal))
        ∙ length-append (fatals q) (e ∷ []) in
      record {
        slots = omega (arith, r.slots, more, length-append q (e ∷ []));
        allowance = omega (arith, r.allowance, more, pos);
      }

  pub append_minor :
      (q : List KernelEvent) (e : KernelEvent) (k : ℕ)
      → is_fatal e ≡ false
      → length q + reserved_slots < n
      → IsReserved n q k
      → IsReserved n (q ++ (e ∷ [])) k
  append_minor q e k minor room r =
      let same : length (fatals (q ++ (e ∷ []))) ≡ length (fatals q) = ap length (
        fatals-append q (e ∷ [])
        ∙ ap (λ t. fatals q ++ t) (fatals_minor e minor)
        ∙ append-nil (fatals q)) in
      record {
        slots = omega (arith, room, length-append q (e ∷ []));
        allowance = omega (arith, r.allowance, same);
      }
