-- ===== src/Dsp/Node/Session.antt =====
-- A gain node of crates/riaps-dsp/src/node.rs in use: the interface sends gains, the audio thread
-- processes blocks.
use native.Mathlib.Nat.{dvd_of_mod-eq-zero}
use blockcat.Prelude.{
  ℕ, ◌<◌, ◌≡◌, ◌≢◌, refl, sym, ap, subst, arith, Bool, true, false, inl, ℕ_discrete, Option, some,
  List, [], ◌∷◌, ◌++◌, length, ◌==◌, if◌then◌else◌, ◌>>=◌,
}
use blockcat.Core.Spsc.Models.{IsCapacity, Models as RingModels}
use blockcat.Core.Spsc.Refine.{fresh, fresh-Models, new-fresh}
use blockcat.Dsp.Node.{Floats, GainNode, new_queue, try_push, db_to_linear, new, scale, process}
use blockcat.Dsp.Node.Models.{Models, latest, is_some, try_push_full, try_push_ok, drain_to-Models}

pub data Action {ℓ} (F : Type ℓ) : Type ℓ where
  sends : F → Action F
  plays : (inputs outputs : List F) → Action F

pub data Reply {ℓ} (F : Type ℓ) : Type ℓ where
  pushed : Bool → Reply F
  played : List F → Reply F

-- What the node promises: the gain in force, and the gains that wait.
pub record Setting {ℓ} (F : Type ℓ) : Type ℓ where
  pub gain_db : F
  pub pending : List F

module _ {ℓ} {F : Type ℓ} (floats : Floats F) where
  unfoldable pub settle : Setting F → Action F → Reply F × Setting F
  settle s (Action.sends v) =
      if length s.pending == 16
      then (pushed false, s)
      else (pushed true, record s { pending = s.pending ++ (v ∷ []) })
  settle s (Action.plays inputs outputs) =
      let db = latest s.gain_db s.pending in
      (
        played (scale floats (db_to_linear floats db) inputs outputs),
        record { gain_db = db; pending = [] },
      )

  unfoldable pub settles : Setting F → List (Action F) → List (Reply F) × Setting F
  settles s [] = ([], s)
  settles s (a ∷ actions) =
      let (reply, s') = settle s a in
      let (replies, last) = settles s' actions in (reply ∷ replies, last)

  -- One call of the node.
  unfoldable pub step : GainNode F → Action F → Option (Reply F × GainNode F)
  step node (Action.sends v) =
      let (accepted, queue) = try_push node.param_db v in
      some (pushed accepted, record node { param_db = queue })
  step node (Action.plays inputs outputs) = do
    (node', out) ← process floats node inputs outputs
    some (played out, node')

  unfoldable pub run : GainNode F → List (Action F) → Option (List (Reply F) × GainNode F)
  run node [] = some ([], node)
  run node (a ∷ actions) = do
    (reply, node') ← step node a
    (replies, last) ← run node' actions
    some (reply ∷ replies, last)

  -- The linear gain is that of the gain in force. Sixteen divides 2^64, so the queue never wears out.
  record Holds (node : GainNode F) (s : Setting F) : Type ℓ where
    gain : node.gain_db ≡ s.gain_db
    linear : node.gain_lin ≡ db_to_linear floats s.gain_db
    ring : RingModels node.param_db.ring s.pending

  abbrev Refines : GainNode F → Action F → Reply F × Setting F → Type ℓ
  Refines node a result =
      (node' : GainNode F) × (step node a ≡ some (result.0, node')) × Holds node' result.1

  sixteen : IsCapacity 16
  sixteen = record { positive = omega arith; small = omega arith }

  queue-Models :
      (node : GainNode F) (s : Setting F) (k : ℕ) → Holds node s → Models node.param_db s.pending k
  queue-Models node s k h = record { ring = h.ring; sound = inl (dvd_of_mod-eq-zero 16 refl) }

  settle_full :
      (s : Setting F) (v : F)
      → length s.pending ≡ 16
      → settle s (Action.sends v) ≡ (pushed false, s)
  unfolding settle
  settle_full s v e = ground arith

  settle_room :
      (s : Setting F) (v : F)
      → length s.pending < 16
      → settle s (Action.sends v) ≡ (pushed true, record s { pending = s.pending ++ (v ∷ []) })
  unfolding settle
  settle_room s v lt = let ne : length s.pending ≢ 16 = omega arith in ground arith

  push-Refines :
      (node : GainNode F) (s : Setting F) (v : F)
      → Holds node s
      → Refines node (Action.sends v) (settle s (Action.sends v))
  unfolding step
  push-Refines node s v h = elim (ℕ_discrete (length s.pending) 16) [
    | yes full ↦
        let (e, m) =
          try_push_full node.param_db s.pending 0 v sixteen (queue-Models node s 1 h) full in
        subst (Refines node (Action.sends v)) (sym (settle_full s v full))
          (node, ap (λ r. some (pushed r.0, record node { param_db = r.1 })) e, h)
    | no ne ↦
        let room : length s.pending < 16 = omega (arith, h.ring.room) in
        let (queue, e, m) =
          try_push_ok node.param_db s.pending 0 v sixteen (queue-Models node s 1 h) room in
        subst (Refines node (Action.sends v)) (sym (settle_room s v room)) (
          record node { param_db = queue },
          ap (λ r. some (pushed r.0, record node { param_db = r.1 })) e,
          record { gain = h.gain; linear = h.linear; ring = m.ring },
        )
  ]

  process-Refines :
      (node : GainNode F) (db : F) (pending inputs outputs : List F)
      → Holds node (record { gain_db = db; pending = pending })
      → Refines node
          (Action.plays inputs outputs)
          (settle (record { gain_db = db; pending = pending }) (Action.plays inputs outputs))
  unfolding step settle process latest is_some
  process-Refines node db [] inputs outputs h =
      let (queue, e, m) =
        drain_to-Models node.param_db [] 0 node.gain_db sixteen (queue-Models node _ 0 h) in
      (
        record node { param_db = queue },
        rw (e, h.linear),
        record { gain = h.gain; linear = h.linear; ring = m.ring },
      )
  process-Refines node db (x ∷ pending) inputs outputs h =
      let (queue, e, m) =
        drain_to-Models node.param_db (x ∷ pending) 0 node.gain_db sixteen
          (queue-Models node _ 0 h) in
      let now : F = latest x pending in
      (
        record { gain_db = now; gain_lin = db_to_linear floats now; param_db = queue },
        rw e,
        record { gain = refl; linear = refl; ring = m.ring },
      )

  step-Refines :
      (node : GainNode F) (s : Setting F) (a : Action F)
      → Holds node s
      → Refines node a (settle s a)
  step-Refines node s (Action.sends v) h = push-Refines node s v h
  step-Refines node s (Action.plays inputs outputs) h =
      process-Refines node s.gain_db s.pending inputs outputs h

  run-Refines :
      (node : GainNode F) (s : Setting F) (actions : List (Action F))
      → Holds node s
      → (node' : GainNode F) × (run node actions ≡ some ((settles s actions).0, node'))
        × Holds node' (settles s actions).1
  unfolding run settles
  run-Refines node s [] h = (node, refl, h)
  run-Refines node s (a ∷ actions) h =
      let (node', e, h') = step-Refines node s a h in
      let (last, e', h'') = run-Refines node' (settle s a).1 actions h' in (last, rw (e, e'), h'')

  -- From its construction with the gain `db` on, every sequence of gains sent and blocks processed
  -- answers as the following does: up to sixteen gains wait, and one more is refused; a block is
  -- scaled by the linear gain of the latest gain that waits, or of the one in force where none does,
  -- and that gain is in force from then on. No call is undefined behaviour of the ring.
  pub gain_node_lifetime :
      (db : F) (actions : List (Action F))
      → (node : GainNode F) × (node' : GainNode F) × (new floats db ≡ some node)
        × (run node actions
            ≡ some ((settles (record { gain_db = db; pending = [] }) actions).0, node'))
        × (node'.gain_db ≡ (settles (record { gain_db = db; pending = [] }) actions).1.gain_db)
        × (node'.gain_lin
            ≡ db_to_linear floats
                (settles (record { gain_db = db; pending = [] }) actions).1.gain_db)
  unfolding new new_queue
  gain_node_lifetime db actions =
      let node : GainNode F = record {
        gain_db = db;
        gain_lin = db_to_linear floats db;
        param_db = record { ring = fresh };
      } in
      let (node', e, h) =
        run-Refines node (record { gain_db = db; pending = [] }) actions
          (record { gain = refl; linear = refl; ring = fresh-Models sixteen }) in
      (node, node', rw (new-fresh sixteen), e, h.gain, h.linear)
