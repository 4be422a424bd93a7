-- ===== src/WorkerQueue/Tests.antt =====
-- The queue of workerqueue.go at three workers, of which the first is not ready.
use ideacrawler.Prelude.{ℕ, Bool, not, List, [], ◌∷◌, Option, some, ◌≡◌, refl, ◌==◌}
use ideacrawler.WorkerQueue.{next, pop, push}
use ideacrawler.WorkerQueue.Rotation.{Rotates, next-Rotates}

abbrev ready : ℕ → Bool
ready w = not (w == 1)

next-Rotates_example :
    (r : Option ℕ) × (q : List ℕ) × (next ready (1 ∷ 2 ∷ 3 ∷ []) ≡ some (r, q))
    × Rotates ready (1 ∷ 2 ∷ 3 ∷ []) r q
next-Rotates_example = next-Rotates ready (1 ∷ 2 ∷ 3 ∷ [])

next_skips : next ready (1 ∷ 2 ∷ 3 ∷ []) ≡ some (some 2, 3 ∷ 2 ∷ [])
unfolding next push pop
next_skips = refl
