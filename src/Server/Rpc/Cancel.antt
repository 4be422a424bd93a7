-- ===== src/Server/Rpc/Cancel.antt =====
-- What `CancelJob` of worker.go comes to.
use ideacrawler.Prelude.{
  String, true, false, none, some, Outcome, ok, blocks, ◌≡◌, ◌≢◌, ◌⊎◌, inl, inr, refl, arith,
  Option-cases, ◌<>◌,
}
use ideacrawler.Prelude.Dict.{lookup, insert}
use ideacrawler.Proto.{JobId, Status}
use ideacrawler.Job.{Job, Canceller, unstarted, waiting, woken, gone, request_cancel}
use ideacrawler.Server.{Server, registered, find_job}
use ideacrawler.Server.Registry.{WellFormed}
use ideacrawler.Server.Rpc.{Reply, cancel_job, cancel_found, awaited}

-- The error of a job that `jobManager` does not find.
abbrev pub unknown_job : JobId → String
unknown_job sub = "Unable to find subcode - " <> sub.id

-- The job when the handler comes to its send: as it stands, or, if its cancel goroutine has not been
-- started, as `RunJob` leaves it.
abbrev pub Awaited : (Job → Job) → Job → Job → Type 0
Awaited starts j j' =
    ((j.canceller ≡ unstarted) × (j' ≡ starts j)) ⊎ ((j.canceller ≢ unstarted) × (j' ≡ j))

-- The server with the cancel goroutine of job `k` woken, and no other job touched; or a goroutine that
-- does not wait for a signal: it is not started after all, was woken, or has gone.
abbrev pub Cancels : (Job → Job) → JobId → Server → Outcome (Server × Status × Reply) → Type 0
Cancels starts sub s r =
    ((registered s sub.id ≡ none)
      × (r ≡ ok (s, record { success = false; error = unknown_job sub }, some (unknown_job sub))))
    ⊎ ((j : Job) × (j' : Job) × (lookup sub.id s.store ≡ some j)
        × Awaited starts j j'
        × (((j'.canceller ≡ waiting)
              × (r
                  ≡ ok (
                    record s { store = insert sub.id (record j' { canceller = woken }) s.store },
                    record { success = true; error = "" },
                    none,
                  )))
            ⊎ ((j'.canceller ≢ waiting) × (r ≡ blocks))))

awaited-Awaited : (starts : Job → Job) (j : Job) → Awaited starts j (awaited starts j)
unfolding awaited
awaited-Awaited starts j = go j.canceller refl
  where
    go : (c : Canceller) → j.canceller ≡ c → Awaited starts j (awaited starts j)
    go unstarted e = inl (e, rw e refl)
    go waiting e = inr ((λ h. ground (arith, e, h)), rw e refl)
    go woken e = inr ((λ h. ground (arith, e, h)), rw e refl)
    go gone e = inr ((λ h. ground (arith, e, h)), rw e refl)

request_cancel-cases :
    (j : Job)
    → ((j.canceller ≡ waiting) × (request_cancel j ≡ ok (record j { canceller = woken })))
      ⊎ ((j.canceller ≢ waiting) × (request_cancel j ≡ blocks))
unfolding request_cancel
request_cancel-cases j = go j.canceller refl
  where
    go :
        (c : Canceller)
        → j.canceller ≡ c
        → ((j.canceller ≡ waiting) × (request_cancel j ≡ ok (record j { canceller = woken })))
          ⊎ ((j.canceller ≢ waiting) × (request_cancel j ≡ blocks))
    go unstarted e = inr ((λ h. ground (arith, e, h)), ground (arith, e))
    go waiting e = inl (e, ground (arith, e))
    go woken e = inr ((λ h. ground (arith, e, h)), ground (arith, e))
    go gone e = inr ((λ h. ground (arith, e, h)), ground (arith, e))

-- `CancelJob` on a well-formed server comes to one of three things. A job that is not registered is
-- reported, and nothing changes. Else the handler sends to the goroutine that `RunJob` starts for the
-- job, and waits for it to be started if it is not. If the goroutine then waits for the signal it is
-- woken, no other job is touched and the answer is success. If it does not, because `RunJob` never
-- starts it, it has been woken or has gone, the handler waits for ever.
pub cancel_job-Cancels :
    (starts : Job → Job) (sub : JobId) (s : Server)
    → WellFormed s
    → Cancels starts sub s (cancel_job starts (some sub) s)
unfolding cancel_job cancel_found find_job
cancel_job-Cancels starts sub s wf = elim (Option-cases (registered s sub.id)) [
  | inl missing ↦ inl (missing, rw missing refl)
  | inr (_, there) ↦
      let (j, at, named) = wf sub.id there in
      inr (
        j,
        awaited starts j,
        at,
        awaited-Awaited starts j,
        elim (request_cancel-cases (awaited starts j)) [
          | inl (waits, woke) ↦ inl (waits, rw (there, at, woke) refl)
          | inr (not_waiting, hangs) ↦ inr (not_waiting, rw (there, at, hangs) refl)
        ],
      )
]
