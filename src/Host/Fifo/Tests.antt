-- ===== src/Host/Fifo/Tests.antt =====
-- A FIFO of four samples in use, and the theorems on it there.
use blockcat.Prelude.{ℕ, ◌≡◌, ◌≤◌, ◌<◌, refl, arith, none, some, List, [], ◌∷◌, length, replicate}
use blockcat.Host.Fifo.{SampleFifo, new, push_slice, push_zeros}
use blockcat.Host.Fifo.Session.{
  Op, pushes, fills, pops, accepted, popped, run, queue_run, queue_step, fifo_lifetime,
  push_zeros-push_slice,
}

abbrev fifo : SampleFifo ℕ
fifo = record { storage = replicate 4 0; read = 0; write = 0; len = 0 }

fifo-new : new 0 4 ≡ some fifo
unfolding new
fifo-new = refl

abbrev ops : List (Op ℕ)
ops = pops ∷ pushes (1 ∷ 2 ∷ 3 ∷ []) ∷ pops ∷ fills 5 ∷ pushes (9 ∷ []) ∷ pops ∷ []

queue_run-ops : queue_run 0 4 [] ops ≡ (
  popped none ∷ accepted 3 ∷ popped (some 1) ∷ accepted 2 ∷ accepted 0 ∷ popped (some 2) ∷ [],
  3 ∷ 0 ∷ 0 ∷ [],
)
unfolding queue_run queue_step
queue_run-ops = refl

fifo_lifetime_example :
    (f' : SampleFifo ℕ) × (run 0 fifo ops ≡ some ((queue_run 0 4 [] ops).0, f'))
    × (f'.len ≡ length (queue_run 0 4 [] ops).1)
    × (f'.len ≤ 4)
    × (f'.read < 4)
    × (f'.write < 4)
fifo_lifetime_example = fifo_lifetime 0 4 fifo ops (omega arith) fifo-new

push_zeros-push_slice_example : push_zeros 0 fifo 6 ≡ push_slice fifo (replicate 6 0)
push_zeros-push_slice_example = push_zeros-push_slice 0 fifo 6
