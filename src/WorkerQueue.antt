-- ===== src/WorkerQueue.antt =====
-- workerqueue.go: the rotation of cluster workers. A nil `*worker` is `none`; the queue is the slice.
pub mod Rotation
mod Tests
use ideacrawler.Prelude.{ℕ, zero, suc, Bool, List, [], ◌∷◌, ◌++◌, Option, none, some, length}
use ideacrawler.Prelude.{if◌then◌else◌}

module _ {ℓ} {W : Type ℓ} where
  unfoldable pub push : Option W → List W → List W
  push none wq = wq
  push (some w) wq = wq ++ w ∷ []

  -- The worker taken, and the queue after it.
  unfoldable pub pop : List W → Option W × List W
  pop [] = (none, [])
  pop (w ∷ q) = (some w, q)

  -- `is_ready w`: the state of `w`'s connection is Ready when `next` asks. The loop takes one entry
  -- off in each round, so the fuel is its number of rounds; `none` is a loop cut short.
  unfoldable pub next_loop : (W → Bool) → ℕ → List W → Option (Option W × List W)
  next_loop is_ready zero wq = none
  next_loop is_ready (suc rounds) wq =
      let (taken, q) = pop wq in
      elim taken [
        | none ↦ some (none, q)
        | some w ↦
            let again = next_loop is_ready rounds q in
            if is_ready w then some (some w, push (some w) q) else again
      ]

  unfoldable pub next : (W → Bool) → List W → Option (Option W × List W)
  unfolding next_loop
  next is_ready wq = next_loop is_ready (suc (length wq)) wq
