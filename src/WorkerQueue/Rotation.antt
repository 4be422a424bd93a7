-- ===== src/WorkerQueue/Rotation.antt =====
-- `next` of workerqueue.go against the plain list of the workers.
use ideacrawler.Prelude.{
  ℕ, zero, suc, Bool, true, false, List, [], ◌∷◌, ◌++◌, Option, none, some, length, All, ◌≡◌, refl,
  ◌<◌, ap, sym, subst, ◌∙◌, arith, Bool-cases, inl, inr,
}
use mathlib.Core.List.{append-nil, append_assoc}
use ideacrawler.WorkerQueue.{push, pop, next_loop, next}

module _ {ℓ} {W : Type ℓ} (is_ready : W → Bool) where
  -- What one call may return from the queue `wq`: no worker of it was ready, and the queue is empty;
  -- or the first ready one, which goes to the end, the others before it dropped.
  pub data Rotates (wq : List W) : Option W → List W → Type ℓ where
    exhausted : All (λ w. is_ready w ≡ false) wq → Rotates wq none []
    rotated :
        (dead : List W) (w : W) (rest : List W)
        → wq ≡ dead ++ w ∷ rest
        → All (λ v. is_ready v ≡ false) dead
        → is_ready w ≡ true
        → Rotates wq (some w) (rest ++ w ∷ [])

  Rotates-cons :
      (v : W) (wq : List W) {r : Option W} {q : List W}
      → is_ready v ≡ false
      → Rotates wq r q
      → Rotates (v ∷ wq) r q
  Rotates-cons v wq h (exhausted a) = exhausted (h, a)
  Rotates-cons v wq h (rotated dead w rest e a k) =
      rotated (v ∷ dead) w rest (ap (◌∷◌ v) e) (h, a) k

  next_loop-Rotates :
      (rounds : ℕ) (wq : List W)
      → length wq < rounds
      → (r : Option W) × (q : List W) × (next_loop is_ready rounds wq ≡ some (r, q))
        × Rotates wq r q
  unfolding next_loop pop push
  next_loop-Rotates zero wq h = absurd (omega arith)
  next_loop-Rotates (suc n) [] h = (none, [], refl, exhausted tt)
  next_loop-Rotates (suc n) (w ∷ wq) h = elim (Bool-cases (is_ready w)) [
    | inl yes_ready ↦ (some w, wq ++ w ∷ [], rw yes_ready, rotated [] w wq refl tt yes_ready)
    | inr dead ↦
        let (r, q, e, k) = next_loop-Rotates n wq (omega arith) in
        (r, q, rw dead e, Rotates-cons w wq dead k)
  ]

  -- The loop of `next` ends, whatever the connections' states: the worker returned is the first
  -- ready one, it moves to the end of the queue and the workers before it leave the queue; nil is
  -- returned only when no worker is ready, and the queue is then empty.
  pub next-Rotates :
      (wq : List W)
      → (r : Option W) × (q : List W) × (next is_ready wq ≡ some (r, q)) × Rotates wq r q
  unfolding next
  next-Rotates wq = next_loop-Rotates (suc (length wq)) wq (omega arith)

  -- `n` calls of `next` in turn: the workers returned, and the queue left. `none`: a call found no
  -- worker.
  served : Option W → Option (List W × List W) → Option (List W × List W)
  served (some w) (some (ws, q)) = some (w ∷ ws, q)
  served (some w) none = none
  served none rest = none

  pub serve : ℕ → List W → Option (List W × List W)
  unfolding served
  serve zero wq = some ([], wq)
  serve (suc n) wq = elim (next is_ready wq) [ none ↦ none | some (r, q) ↦ served r (serve n q) ]

  next_of_ready :
      (w : W) (wq : List W)
      → is_ready w ≡ true
      → next is_ready (w ∷ wq) ≡ some (some w, wq ++ w ∷ [])
  unfolding next pop push
  next_of_ready w wq up = rw up

  served_cons :
      (x : W) (r : Option (List W × List W)) (ws q : List W)
      → r ≡ some (ws, q)
      → served (some x) r ≡ some (x ∷ ws, q)
  unfolding served
  served_cons x r ws q e = rw e

  serve_from :
      (xs ys : List W)
      → All (λ w. is_ready w ≡ true) xs
      → serve (length xs) (xs ++ ys) ≡ some (xs, ys ++ xs)
  unfolding serve
  serve_from [] ys a = ap (λ l. some ([], l)) (sym (append-nil ys))
  serve_from (x ∷ xs) ys (up, a) =
      rw (next_of_ready x (xs ++ ys) up, serve, append_assoc xs ys (x ∷ []))
        (served_cons x _ xs _ (serve_from xs (ys ++ x ∷ []) a) ∙ rw (append_assoc ys (x ∷ []) xs))

  -- While all workers are ready, as many calls as there are workers return each of them once, in the
  -- order of the queue, and leave the queue as it was.
  pub serve_round :
      (wq : List W) → All (λ w. is_ready w ≡ true) wq → serve (length wq) wq ≡ some (wq, wq)
  serve_round wq a =
      subst (λ l. serve (length wq) l ≡ some (wq, wq)) (append-nil wq) (serve_from wq [] a)
