-- ===== src/Dsp/Node/Models.antt =====
-- The parameter queue of crates/riaps-dsp/src/node.rs: `drain_to` keeps the latest value only.
use blockcat.Prelude.{
  ℕ, zero, suc, ◌+◌, ◌<◌, ◌≡◌, ◌∙◌, refl, ap, arith, Bool, true, false, some, List, [], ◌∷◌, ◌++◌,
  length,
}
use blockcat.Core.Spsc
use blockcat.Core.Spsc.{SpscRing}
use blockcat.Core.Spsc.Calls.{IsSound}
use blockcat.Core.Spsc.Models.{
  IsCapacity, Models as RingModels, len-Models, push_full, push_ok, after_push, after_pop,
  pop_empty, pop-some,
}
use blockcat.Core.Spsc.Steps.{push-Models, pop-Models, IsSound-after}
use blockcat.Dsp.Node.{ParameterQueue, try_push, drain_loop, drain_to, is_ok}

module _ {ℓ} {A : Type ℓ} where
  -- The latest of the values `q`, or `d` if there is none.
  unfoldable pub latest : A → List A → A
  latest d [] = d
  latest d (x ∷ q) = latest x q

  unfoldable pub is_some : Bool → List A → Bool
  is_some updated [] = updated
  is_some updated (x ∷ q) = true

  is_some_already : (q : List A) → is_some true q ≡ true
  unfolding is_some
  is_some_already [] = refl
  is_some_already (x ∷ q) = refl

module _ {ℓ} {A : Type ℓ} {n : ℕ} where
  -- The queue holds `q`, and is good for `k` more values.
  pub record Models (p : ParameterQueue A n) (q : List A) (k : ℕ) : Type ℓ where
    pub ring : RingModels p.ring q
    pub sound : IsSound n (p.ring.head + length q) k

  pub try_push_full :
      (p : ParameterQueue A n) (q : List A) (k : ℕ) (v : A)
      → IsCapacity n
      → Models p q (suc k)
      → length q ≡ n
      → (try_push p v ≡ (false, p)) × Models p q k
  unfolding try_push
  try_push_full p q k v c m full = (
    ap (λ r. (is_ok r.0, record { ring = r.1 })) (push_full p.ring q v c m.ring full),
    record {
      ring = m.ring;
      sound =
          IsSound-after n (p.ring.head + length q) (p.ring.head + length q) (suc k) k m.sound
            (λ h. omega arith);
    },
  )

  pub try_push_ok :
      (p : ParameterQueue A n) (q : List A) (k : ℕ) (v : A)
      → IsCapacity n
      → Models p q (suc k)
      → length q < n
      → (p' : ParameterQueue A n) × (try_push p v ≡ (true, p')) × Models p' (q ++ (v ∷ [])) k
  unfolding try_push
  try_push_ok p q k v c m room =
      let (m', s') = push-Models p.ring q v k c m.ring m.sound room in
      (
        record { ring = after_push p.ring v },
        ap (λ r. (is_ok r.0, record { ring = r.1 })) (push_ok p.ring q v c m.ring room),
        record { ring = m'; sound = s' },
      )

  drain_loop_lem :
      (fuel : ℕ) (r : SpscRing A n) (q : List A) (k : ℕ) (dst : A) (updated : Bool)
      → IsCapacity n
      → RingModels r q
      → IsSound n (r.head + length q) k
      → length q < fuel
      → (r' : SpscRing A n) × (drain_loop fuel r dst updated
          ≡ some (is_some updated q, latest dst q, r'))
        × RingModels r' []
        × IsSound n (r'.head + 0) k
  unfolding drain_loop is_some latest
  drain_loop_lem zero r q k dst updated c m s lt = absurd (omega arith)
  drain_loop_lem (suc fuel) r [] k dst updated c m s lt = (r, rw (pop_empty r c m), m, s)
  drain_loop_lem (suc fuel) r (x ∷ q) k dst updated c m s lt =
      let (m', s') = pop-Models r x q k c m s in
      let (r', e, m'', s'') = drain_loop_lem fuel (after_pop r) q k x true c m' s' (omega arith) in
      (
        r',
        rw (pop-some r x q c m) (e ∙ ap (λ b. some (b, latest x q, r')) (is_some_already q)),
        m'',
        s'',
      )

  pub drain_to-Models :
      (p : ParameterQueue A n) (q : List A) (k : ℕ) (dst : A)
      → IsCapacity n
      → Models p q k
      → (p' : ParameterQueue A n) × (drain_to p dst ≡ some (is_some false q, latest dst q, p'))
        × Models p' [] k
  unfolding drain_to
  drain_to-Models p q k dst c m =
      let (r, e, m', s') =
        drain_loop_lem (Spsc.len p.ring + 1) p.ring q k dst false c m.ring m.sound
          (omega (arith, len-Models p.ring q c m.ring)) in
      (record { ring = r }, rw e, record { ring = m'; sound = s' })
