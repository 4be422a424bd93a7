-- ===== src/Server/Registry.antt =====
-- What the registry of worker.go holds: validation, lookup, and the removal of finished jobs.
use ideacrawler.Prelude.{
  String, Bool, true, false, Option, none, some, [], ◌∷◌, Result, val, err, ◌≡◌, ◌⊎◌, inl, inr,
  refl, arith, str_eq, str_eq_iff, Bool-cases, Result-cases, ap, if◌then◌else◌,
}
use ideacrawler.Prelude.Dict.{Dict, lookup}
use ideacrawler.Job.{Job, Url, Regexp}
use ideacrawler.Web.{Web}
use ideacrawler.Server.{
  Server, NewJob, NewJobStatus, domain_name_from_url, compile_option, validate, add_validated,
  add_new_job, registered, job_done, register, new_job, callback_url_message, follow_url_message,
  anchor_text_message, new_subscriber, sweep_ids, sweep,
}

lookup-sweep_ids :
    (gone : String → Bool) (k : String) (m : Dict (Unit {0}))
    → lookup k (sweep_ids gone m) ≡ (if gone k then none else lookup k m)
unfolding sweep_ids lookup
lookup-sweep_ids gone k [] = ground arith
lookup-sweep_ids gone k ((i, x) ∷ m) = ground (arith, str_eq_iff i k, lookup-sweep_ids gone k m)

pub registered-sweep :
    (s : Server) (k : String)
    → registered (sweep s) k ≡ (if job_done s k then none else registered s k)
unfolding sweep
registered-sweep s k = lookup-sweep_ids (job_done s) k s.jobs

-- Every registered id has its job in the store.
abbrev pub WellFormed : Server → Type 0
WellFormed s =
    (k : String)
    → registered s k ≡ some tt
    → (j : Job) × (lookup k s.store ≡ some j) × (j.id.id ≡ k)

module _ (w : Web) (compile : String → Result Regexp) where
  abbrev pub Compiles : String → Type 0
  Compiles text = (text ≡ "") ⊎ ((re : Regexp) × (compile text ≡ val re))

  compile_option-cases :
      (message : String → String) (text : String)
      → (Compiles text × ((r : Option Regexp) × (compile_option w compile message text ≡ val r)))
        ⊎ (¬ Compiles text × ((e : String) × (compile_option w compile message text ≡ err e)))
  unfolding compile_option
  compile_option-cases message text = elim (Bool-cases (str_eq text "")) [
    | inl empty ↦ inl (inl ((str_eq_iff text "").0 empty), (none, rw empty))
    | inr given ↦ rw given (elim (Result-cases (compile text)) [
      | inr (re, e) ↦ inl (inr (re, e), (some re, rw (e, compile_option)))
      | inl (error, e) ↦ inr (not_compiled given e, (message error, rw (e, compile_option)))
    ])
  ]
    where
      not_compiled :
          {error : String} → str_eq text "" ≡ false → compile text ≡ err error → ¬ Compiles text
      not_compiled given e (inl empty) = ground (arith, str_eq_iff text "")
      not_compiled given e (inr (re, e')) = cc

  -- What `addNewJob` asks of a new job.
  pub record Accepts (nj : NewJob) : Type 0 where
    pub seed : (u : Url) × (w.parse_url nj.opts.seed_url ≡ val u)
    pub callback : Compiles nj.opts.callback_url_regexp
    pub follow : Compiles nj.opts.follow_url_regexp
    pub anchor : Compiles nj.opts.callback_anchor_text_regexp

  -- The job that a valid request starts: under the fresh id, running, with nothing crawled yet.
  abbrev pub Starts : String → NewJob → Job → Type 0
  Starts id nj j =
      (j.id.id ≡ id)
      × (j.opts ≡ nj.opts)
      × (j.done_closed ≡ false)
      × (j.duplicates ≡ [])
      × (j.queue ≡ [])
      × (j.subscriber.connected ≡ nj.subscribe)

  domain_name_from_url-cases :
      (url : String)
      → (((u : Url) × (w.parse_url url ≡ val u))
          × ((d : String) × (domain_name_from_url w compile url ≡ val d)))
        ⊎ (¬ ((u : Url) × (w.parse_url url ≡ val u))
            × ((e : String) × (domain_name_from_url w compile url ≡ err e)))
  unfolding domain_name_from_url
  domain_name_from_url-cases url = elim (Result-cases (w.parse_url url)) [
    | inl (error, e) ↦ inr ((λ a. differ e a.1), (error, rw (e, domain_name_from_url)))
    | inr (u, e) ↦ inl ((u, e), (w.hostname u, rw (e, domain_name_from_url)))
  ]
    where
      differ :
          {error : String} {u : Url} → w.parse_url url ≡ err error → w.parse_url url ≡ val u → ⊥
      differ e a = cc

  validate-cases :
      (id : String) (nj : NewJob)
      → (Accepts nj × ((j : Job) × (validate w compile id nj ≡ val j) × Starts id nj j))
        ⊎ (¬ Accepts nj × ((e : String) × (validate w compile id nj ≡ err e)))
  unfolding validate
  validate-cases id nj = elim (domain_name_from_url-cases opts.seed_url) [
    | inr (bad, (error, e)) ↦ inr ((λ a. bad a.seed), (error, rw e))
    | inl (url, (d, e)) ↦
        elim (compile_option-cases (callback_url_message opts) opts.callback_url_regexp) [
          | inr (bad, (error, e1)) ↦ inr ((λ a. bad a.callback), (error, rw (e, e1)))
          | inl (c, (r, e1)) ↦
              elim (compile_option-cases (follow_url_message opts) opts.follow_url_regexp) [
                | inr (bad, (error, e2)) ↦ inr ((λ a. bad a.follow), (error, rw (e, e1, e2)))
                | inl (f, (r', e2)) ↦
                    elim (compile_option-cases (anchor_text_message opts)
                      opts.callback_anchor_text_regexp) [
                        | inr (bad, (error, e3)) ↦
                            inr ((λ a. bad a.anchor), (error, rw (e, e1, e2, e3)))
                        | inl (a, (r'', e3)) ↦ inl (
                          record { seed = url; callback = c; follow = f; anchor = a },
                          (
                            new_job w compile id nj d r r' r'',
                            rw (e, e1, e2, e3),
                            (refl, refl, refl, refl, refl, connected nj.subscribe),
                          ),
                        )
                      ]
              ]
        ]
  ]
    where
      open nj use {opts}

      connected : (b : Bool) → (new_subscriber b).connected ≡ b
      connected true = refl
      connected false = refl

  -- `addNewJob` on a valid request, and on one that is not.
  abbrev pub Admits : String → NewJob → Server → Server × NewJobStatus → Type 0
  Admits id nj s (s', r) =
      Accepts nj
      × ((j : Job) × Starts id nj j
          × (s' ≡ register w compile id j s)
          × (r ≡ val (record { id = id })))

  abbrev pub Refuses : NewJob → Server → Server × NewJobStatus → Type 0
  Refuses nj s (s', r) = ¬ Accepts nj × ((e : String) × (r ≡ err e)) × (s' ≡ s)

  -- `addNewJob` admits a request exactly when its seed URL parses and each of its three regexps is
  -- empty or compiles. Then a job that has crawled nothing yet, and has a subscriber if one was asked
  -- for, is registered under the fresh id, nothing else is changed, and the answer is the id. A
  -- request that is not admitted is answered with an error and leaves the server as it was.
  pub add_new_job-Admits :
      (id : String) (nj : NewJob) (s : Server)
      → Admits id nj s (add_new_job w compile id nj s)
        ⊎ Refuses nj s (add_new_job w compile id nj s)
  unfolding add_new_job add_validated
  add_new_job-Admits id nj s = elim (validate-cases id nj) [
    | inr (bad, (e, same)) ↦ inr (rw same (bad, (e, refl), refl))
    | inl (accepts, (j, same, starts)) ↦
        inl (rw same (accepts, (j, starts, refl, ap answered starts.0)))
  ]
    where
      answered : String → NewJobStatus
      answered i = val (record { id = i })
