-- ===== src/WorkerManager/Protocol.antt =====
-- The goroutine `run` of workermanager.go, the callers of `nextWorker` and of `addWorker`, in any
-- order.
use ideacrawler.Prelude.{
  ℕ, zero, suc, ◌+◌, ◌*◌, ◌≤◌, ◌<◌, Bool, List, [], ◌∷◌, ◌++◌, Option, some, length, length-append,
  ◌≡◌, refl, ap, ◌⊎◌, inl, inr, arith,
}
use ideacrawler.WorkerQueue.{push, next}
use ideacrawler.WorkerQueue.Rotation.{next-Rotates}

-- What `run` does: it waits at its select, or has taken a request and is about to send the answer.
pub data Runner (W : Type 0) : Type 0 where
  at_select : Runner W
  answering : Option W → Runner W

-- `asked` counts the requests in `nextReqChan`, `waiting` the callers that have asked and have no
-- answer yet.
pub record Manager (W : Type 0) : Type 0 where
  pub workers : List W
  pub add_chan : List W
  pub asked : ℕ
  pub next_chan : List (Option W)
  pub runner : Runner W
  pub waiting : ℕ

-- `newWorkerManager`
abbrev pub new_manager : (W : Type 0) → Manager W
new_manager W = record {
  workers = [];
  add_chan = [];
  asked = 0;
  next_chan = [];
  runner = at_select;
  waiting = 0;
}

module _ {W : Type 0} (is_ready : W → Bool) where
  -- The moves that serve the callers.
  pub data Serve : Manager W → Manager W → Type 0 where
    take_request :
        {m : Manager W} {n : ℕ} {r : Option W} {q : List W}
        → m.asked ≡ suc n
        → m.runner ≡ at_select
        → next is_ready m.workers ≡ some (r, q)
        → Serve m (record m { asked = n; workers = q; runner = answering r })
    -- `wm.nextChan <- ...`, with room for ten.
    answer :
        {m : Manager W} {r : Option W}
        → m.runner ≡ answering r
        → length m.next_chan < 10
        → Serve m (record m { runner = at_select; next_chan = m.next_chan ++ r ∷ [] })
    -- `return <-wm.nextChan`
    receive :
        {m : Manager W} {r : Option W} {rs : List (Option W)} {n : ℕ}
        → m.next_chan ≡ r ∷ rs
        → m.waiting ≡ suc n
        → Serve m (record m { next_chan = rs; waiting = n })

  pub data Move : Manager W → Manager W → Type 0 where
    serve : {m m' : Manager W} → Serve m m' → Move m m'
    -- `wm.nextReqChan <- struct{}{}`
    ask :
        {m : Manager W}
        → m.asked < 10
        → Move m (record m { asked = suc m.asked; waiting = suc m.waiting })
    -- `wm.addChan <- w`
    add_worker :
        {m : Manager W} (w : W)
        → length m.add_chan < 10
        → Move m (record m { add_chan = m.add_chan ++ w ∷ [] })
    take_worker :
        {m : Manager W} {w : W} {ws : List W}
        → m.add_chan ≡ w ∷ ws
        → m.runner ≡ at_select
        → Move m (record m { add_chan = ws; workers = push (some w) m.workers })

  pub data Reach : Manager W → Type 0 where
    begin : Reach (new_manager W)
    then_ : {m m' : Manager W} → Reach m → Move m m' → Reach m'

  abbrev pub held : Runner W → ℕ
  held at_select = 0
  held (answering r) = 1

  -- Every waiting caller has its request in the channel, in the hands of `run`, or its answer ready;
  -- and both channels keep to their capacity.
  pub record Accounted (m : Manager W) : Type 0 where
    pub balance : m.waiting ≡ m.asked + held m.runner + length m.next_chan
    pub asked_bound : m.asked ≤ 10
    pub next_bound : length m.next_chan ≤ 10

  serve-Accounted : {m m' : Manager W} → Accounted m → Serve m m' → Accounted m'
  serve-Accounted {m} a (take_request {n = n} e idle found) = record {
    balance = ground (arith, a.balance, e, idle);
    asked_bound = omega (arith, a.asked_bound, e);
    next_bound = a.next_bound;
  }
  serve-Accounted {m} a (answer {r = r} e room) = record {
    balance = ground (arith, a.balance, e, length-append m.next_chan (r ∷ []));
    asked_bound = a.asked_bound;
    next_bound = ground (arith, room, length-append m.next_chan (r ∷ []));
  }
  serve-Accounted {m} a (receive {r = r} {rs = rs} {n = n} e w) =
      let size : length m.next_chan ≡ suc (length rs) = ap length e in
      record {
        balance = omega (arith, a.balance, w, size);
        asked_bound = a.asked_bound;
        next_bound = omega (arith, a.next_bound, size);
      }

  move-Accounted : {m m' : Manager W} → Accounted m → Move m m' → Accounted m'
  move-Accounted a (serve s) = serve-Accounted a s
  move-Accounted {m} a (ask room) = record {
    balance = omega (arith, a.balance);
    asked_bound = omega (arith, room);
    next_bound = a.next_bound;
  }
  move-Accounted {m} a (add_worker w room) = record {
    balance = a.balance;
    asked_bound = a.asked_bound;
    next_bound = a.next_bound;
  }
  move-Accounted {m} a (take_worker e idle) = record {
    balance = a.balance;
    asked_bound = a.asked_bound;
    next_bound = a.next_bound;
  }

  pub Reach-Accounted : {m : Manager W} → Reach m → Accounted m
  Reach-Accounted begin = record {
    balance = refl;
    asked_bound = omega arith;
    next_bound = omega arith;
  }
  Reach-Accounted (then_ r m) = move-Accounted (Reach-Accounted r) m

  -- The serving moves that are still to come: three for a request, two for one that `run` holds, one
  -- for an answer.
  abbrev pub load : Manager W → ℕ
  load m = 3 * m.asked + 2 * held m.runner + length m.next_chan

  serve-load : {m m' : Manager W} → Serve m m' → load m ≡ suc (load m')
  serve-load (take_request {m} {n} e idle found) = ground (arith, e, idle)
  serve-load (answer {m} {r} e room) = ground (arith, e, length-append m.next_chan (r ∷ []))
  serve-load (receive {m} {r} {rs} {n} e w) =
      let size : length m.next_chan ≡ suc (length rs) = ap length e in omega (arith, size)

  nat_cases : (n : ℕ) → (n ≡ 0) ⊎ ((k : ℕ) × (n ≡ suc k))
  nat_cases zero = inl refl
  nat_cases (suc k) = inr (k, refl)

  runner_cases : (r : Runner W) → (r ≡ at_select) ⊎ ((o : Option W) × (r ≡ answering o))
  runner_cases at_select = inl refl
  runner_cases (answering o) = inr (o, refl)

  list_cases :
      (xs : List (Option W)) → (xs ≡ []) ⊎ ((x : Option W) × (ys : List (Option W)) × (xs ≡ x ∷ ys))
  list_cases [] = inl refl
  list_cases (x ∷ xs) = inr (x, xs, refl)

  -- `run` with no answer ready goes on if there is anything to do.
  run_goes_on :
      {m : Manager W}
      → Accounted m
      → m.next_chan ≡ []
      → (m.waiting ≡ 0) ⊎ ((m' : Manager W) × Serve m m')
  run_goes_on {m} a empty = elim (runner_cases m.runner) [
    | inr (o, e) ↦ inr (_, answer e (ground (arith, empty)))
    | inl idle ↦ elim (nat_cases m.asked) [
      | inl no_request ↦ inl (ground (arith, a.balance, no_request, idle, empty))
      | inr (n, e) ↦
          let (r, q, found, rotates) = next-Rotates is_ready m.workers in
          inr (_, take_request e idle found)
    ]
  ]

  progress : {m : Manager W} → Accounted m → (m.waiting ≡ 0) ⊎ ((m' : Manager W) × Serve m m')
  progress {m} a = elim (list_cases m.next_chan) [
    | inl empty ↦ run_goes_on a empty
    | inr (r, rs, e) ↦ elim (nat_cases m.waiting) [
      | inl done ↦ inl done
      | inr (n, w) ↦ inr (_, receive e w)
    ]
  ]

  -- A sequence of serving moves, with their number.
  pub data Serves : ℕ → Manager W → Manager W → Type 0 where
    stay : {m : Manager W} → Serves 0 m m
    go : {n : ℕ} {m m' m'' : Manager W} → Serve m m' → Serves n m' m'' → Serves (suc n) m m''

  serves :
      {n : ℕ} {m m' : Manager W}
      → Accounted m
      → Serves n m m'
      → (load m ≡ n + load m') × Accounted m'
  serves a stay = (omega arith, a)
  serves a (go s ss) =
      let (rest, a') = serves (serve-Accounted a s) ss in (omega (arith, serve-load s, rest), a')

  -- From any state that `run` and its callers reach, the moves that serve the callers come to an end
  -- after `load` of them at most, and they only end when every caller of `nextWorker` has its
  -- answer.
  pub Serves-answers :
      {n : ℕ} {m m' : Manager W}
      → Reach m
      → Serves n m m'
      → (load m ≡ n + load m') × ((m'.waiting ≡ 0) ⊎ ((m'' : Manager W) × Serve m' m''))
  Serves-answers r ss = let (e, a) = serves (Reach-Accounted r) ss in (e, progress a)
