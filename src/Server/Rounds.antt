-- ===== src/Server/Rounds.antt =====
-- The rounds of `jobManager` in worker.go: what stays registered, and that the registry keeps its
-- form from `newServer` on.
use ideacrawler.Prelude.{
  String, false, none, some, Result, ◌≡◌, ◌≢◌, ◌⊎◌, inl, inr, refl, arith, str_eq, str_eq_iff,
  Bool-cases, Option-cases, sym, subst, ap, ◌∙◌, if◌then◌else◌,
}
use ideacrawler.Prelude.Dict.{lookup, insert, lookup-insert_same, lookup-insert_other}
use ideacrawler.Job.{Job, Regexp}
use ideacrawler.Web.{Web}
use ideacrawler.Server.{
  Server, NewJob, Event, new_job_event, new_sub_event, default, Mode, new_server, add_new_job,
  registered, find_job, job_done, sweep, answer, after_answer, manage,
}
use ideacrawler.Server.Registry.{WellFormed, registered-sweep, add_new_job-Admits}

module _ (w : Web) (compile : String → Result Regexp) where
  -- The ids that a request may take.
  abbrev pub Takes : Event → String → Type 0
  Takes (new_job_event id nj) k = id ≡ k
  Takes (new_sub_event sub) k = ⊥
  Takes default k = ⊥

  -- A lookup that finds nothing: after it `jobManager` does not look for finished jobs.
  abbrev pub Misses : Event → Server → Type 0
  Misses (new_job_event id nj) s = ⊥
  Misses (new_sub_event sub) s = registered s sub.id ≡ none
  Misses default s = ⊥

  registered-add_new_job :
      (id : String) (nj : NewJob) (s : Server) (k : String)
      → id ≢ k
      → let s' = (add_new_job w compile id nj s).0 in
        (registered s' k ≡ registered s k) × (lookup k s'.store ≡ lookup k s.store)
  registered-add_new_job id nj s k ne = elim (add_new_job-Admits w compile id nj s) [
    | inl (a, (j, starts, same, r)) ↦
        subst (λ t. (registered t k ≡ registered s k) × (lookup k t.store ≡ lookup k s.store))
          (sym same) (lookup-insert_other id k tt s.jobs ne, lookup-insert_other id k j s.store ne)
    | inr (a, e, same) ↦ rw same ((refl, refl))
  ]

  add_new_job-WellFormed :
      (id : String) (nj : NewJob) (s : Server)
      → WellFormed s
      → WellFormed (add_new_job w compile id nj s).0
  add_new_job-WellFormed id nj s wf k reg = elim (add_new_job-Admits w compile id nj s) [
    | inl (a, (j, starts, same, r)) ↦ elim (Bool-cases (str_eq id k)) [
      | inl e ↦ (
        j,
        subst (λ i. lookup i s'.store ≡ some j) ((str_eq_iff id k).0 e)
            (ap (λ t. lookup id t.store) same ∙ lookup-insert_same id j s.store),
        starts.0 ∙ (str_eq_iff id k).0 e,
      )
      | inr differ ↦
          before
            (registered-add_new_job id nj s k (λ e. ground (arith, str_eq_iff id k, differ, e)))
    ]
    | inr (a, e, same) ↦ before (ap (λ t. registered t k) same, ap (λ t. lookup k t.store) same)
  ]
    where
      s' : Server
      s' = (add_new_job w compile id nj s).0

      before :
          (registered s' k ≡ registered s k) × (lookup k s'.store ≡ lookup k s.store)
          → (j : Job) × (lookup k s'.store ≡ some j) × (j.id.id ≡ k)
      before (r, stored) = let (j, at, named) = wf k (sym r ∙ reg) in (j, stored ∙ at, named)

  registered_live :
      (s : Server) (k : String)
      → registered (sweep s) k ≡ some tt
      → (registered s k ≡ some tt) × (job_done s k ≡ false)
  registered_live s k reg = ground (arith, registered-sweep s k, reg, Bool-cases (job_done s k))

  live_stays :
      (s : Server) (k : String)
      → registered s k ≡ some tt
      → job_done s k ≡ false
      → registered (sweep s) k ≡ some tt
  live_stays s k reg live = registered-sweep s k ∙ rw (live, reg)

  sweep-WellFormed : (s : Server) → WellFormed s → WellFormed (sweep s)
  unfolding sweep
  sweep-WellFormed s wf k reg = wf k (registered_live s k reg).0

  pub manage-WellFormed :
      (event : Event) (s : Server) → WellFormed s → WellFormed (manage w compile event s).0
  unfolding manage answer after_answer find_job
  manage-WellFormed (new_job_event id nj) s wf =
      sweep-WellFormed (add_new_job w compile id nj s).0 (add_new_job-WellFormed id nj s wf)
  manage-WellFormed (new_sub_event sub) s wf = elim (Option-cases (registered s sub.id)) [
    | inl missing ↦ rw (missing, find_job) wf
    | inr (_, there) ↦ rw (there, find_job) (sweep-WellFormed s wf)
  ]
  manage-WellFormed default s wf = sweep-WellFormed s wf

  -- What one round of `jobManager` does to an id that the request does not take. A lookup that fails
  -- leaves the server as it was, finished jobs included. Every other round drops the id if its job is
  -- done and keeps it as it was if not. The job itself is not touched.
  pub manage-registered :
      (event : Event) (s : Server) (k : String)
      → ¬ Takes event k
      → let s' = (manage w compile event s).0 in
        (Misses event s × (s' ≡ s))
        ⊎ (¬ Misses event s
            × (registered s' k ≡ (if job_done s k then none else registered s k))
            × (lookup k s'.store ≡ lookup k s.store))
  unfolding manage answer after_answer find_job sweep job_done
  manage-registered (new_job_event id nj) s k fresh =
      let kept = registered-add_new_job id nj s k fresh in
      inr (
        absurd,
        registered-sweep (add_new_job w compile id nj s).0 k
            ∙ swept (add_new_job w compile id nj s).0 kept,
        kept.1,
      )
    where
      absurd : ⊥ → ⊥
      absurd x = x

      swept :
          (s' : Server)
          → (registered s' k ≡ registered s k) × (lookup k s'.store ≡ lookup k s.store)
          → (if job_done s' k then none else registered s' k)
            ≡ (if job_done s k then none else registered s k)
      swept s' (r, stored) = rw (r, stored)
  manage-registered (new_sub_event sub) s k fresh = elim (Option-cases (registered s sub.id)) [
    | inl missing ↦ inl (missing, rw (missing, find_job))
    | inr (_, there) ↦ inr (
      (λ missing. ground (arith, there, missing)),
      rw (there, find_job) (registered-sweep s k),
      rw (there, find_job),
    )
  ]
  manage-registered default s k fresh = inr ((λ x. x), registered-sweep s k, refl)

  -- The states of a server: `jobManager` makes its rounds, and between them the goroutines of a job
  -- change the job, but never its id.
  pub data Reach (id : String) (mode : Mode) : Server → Type 0 where
    begin : Reach id mode (new_server id mode)
    round :
        {s : Server} (event : Event) → Reach id mode s → Reach id mode (manage w compile event s).0
    crawl :
        {s : Server} (k : String) (j j' : Job)
        → lookup k s.store ≡ some j
        → j'.id ≡ j.id
        → Reach id mode s
        → Reach id mode (record s { store = insert k j' s.store })

  pub crawl-WellFormed :
      (s : Server) (k : String) (j j' : Job)
      → lookup k s.store ≡ some j
      → j'.id ≡ j.id
      → WellFormed s
      → WellFormed (record s { store = insert k j' s.store })
  crawl-WellFormed s k j j' at same wf i reg =
      let (j0, at0, named) = wf i reg in
      elim (Bool-cases (str_eq k i)) [
        | inl e ↦ (
          j',
          subst (λ l. lookup l (insert k j' s.store) ≡ some j') ((str_eq_iff k i).0 e)
              (lookup-insert_same k j' s.store),
          moved j0 ((str_eq_iff k i).0 e) at0 named,
        )
        | inr differ ↦ (
          j0,
          lookup-insert_other k i j' s.store (λ e. ground (arith, str_eq_iff k i, differ, e)) ∙ at0,
          named,
        )
      ]
    where
      moved : (j0 : Job) → k ≡ i → lookup i s.store ≡ some j0 → j0.id.id ≡ i → j'.id.id ≡ i
      moved j0 e at0 named = ap (λ d. d.id) same ∙ ap (λ d. d.id.id) (the_job j0 e at0) ∙ named
        where
          the_job : (j0 : Job) → k ≡ i → lookup i s.store ≡ some j0 → j ≡ j0
          the_job j0 e at0 = cc

  -- Whatever requests come and however the jobs go on in between, every id that is registered has a
  -- job, and it is the job that goes by that id.
  pub Reach-WellFormed : {id : String} {mode : Mode} {s : Server} → Reach id mode s → WellFormed s
  unfolding lookup
  Reach-WellFormed begin = λ k reg. ground (arith, reg)
  Reach-WellFormed (round event r) = manage-WellFormed event _ (Reach-WellFormed r)
  Reach-WellFormed (crawl {s} k j j' at same r) =
      crawl-WellFormed s k j j' at same (Reach-WellFormed r)
