-- ===== src/WorkerManager/Clients.antt =====
-- Which connections `createNewClient` of workermanager.go makes workers of, and what `Do` makes of
-- such a worker.
use ideacrawler.Prelude.{
  String, true, false, Option, none, some, panics, Result, val, err, ◌≡◌, ◌↔◌, refl, sym, ap, ◌∙◌,
  subst,
}
use ideacrawler.Prelude.Chan.{Chan}
use ideacrawler.Proto.{PageHtml}
use ideacrawler.GoClient.CrawlJob.{CrawlJob, Rpc, get_worker_id}
use ideacrawler.WorkerManager.{
  Worker, Dial, new_worker_job, create_new_client, with_jobs, dialled, do_chrome_request, ask,
  named,
}

abbrev pub chrome_job : Option (Chan PageHtml) → Rpc → Option CrawlJob
chrome_job pages rpc = new_worker_job rpc true "/usr/bin/chromium" pages

-- The connection works, the worker starts a first job and gives its id.
abbrev pub Adds : Option (Chan PageHtml) → Dial → Worker → Type 0
Adds pages conn wk =
    (rpc : Rpc) × (j : CrawlJob) × (id : String) × (conn.session ≡ none)
    × (conn.opened ≡ none)
    × (conn.client ≡ val rpc)
    × (new_worker_job rpc false "" pages ≡ some j)
    × (get_worker_id rpc ≡ val id)
    × (wk ≡ record { id = id; job = some j; c_job = chrome_job pages rpc })

adds :
    (pages : Option (Chan PageHtml)) (conn : Dial) (wk : Worker)
    → Adds pages conn wk
    → create_new_client pages conn ≡ some wk
unfolding create_new_client dialled with_jobs
adds pages conn wk (rpc, j, id, s, o, c, first, named, same) =
    rw (s, o, c, first, named) (ap some (sym same))

named-inversion :
    (oj cj : Option CrawlJob) (r : Result String) (wk : Worker)
    → named oj cj r ≡ some wk
    → (id : String) × (r ≡ val id) × (wk ≡ record { id = id; job = oj; c_job = cj })
named-inversion oj cj (val id) wk h = (id, refl, cc)
named-inversion oj cj (err e) wk h = cc

with_jobs-inversion :
    (rpc : Rpc) (oj cj : Option CrawlJob) (wk : Worker)
    → with_jobs rpc oj cj ≡ some wk
    → (j : CrawlJob) × (id : String) × (oj ≡ some j)
      × (get_worker_id rpc ≡ val id)
      × (wk ≡ record { id = id; job = some j; c_job = cj })
unfolding with_jobs
with_jobs-inversion rpc none cj wk h = cc
with_jobs-inversion rpc (some j) cj wk h =
    let (id, e, same) = named-inversion (some j) cj (get_worker_id rpc) wk h in
    (j, id, refl, e, same)

added_by :
    (pages : Option (Chan PageHtml)) (conn : Dial) (wk : Worker)
    → create_new_client pages conn ≡ some wk
    → Adds pages conn wk
unfolding create_new_client dialled
added_by pages conn wk h = go conn.session conn.opened conn.client refl refl refl h
  where
    go :
        (s o : Option String) (c : Result Rpc)
        → conn.session ≡ s
        → conn.opened ≡ o
        → conn.client ≡ c
        → create_new_client pages (record { session = s; opened = o; client = c }) ≡ some wk
        → Adds pages conn wk
    go (some e) o c es eo ec h = cc
    go none (some e) c es eo ec h = cc
    go none none (err e) es eo ec h = cc
    go none none (val rpc) es eo ec h =
        let (j, id, first, named, same) =
          with_jobs-inversion rpc (new_worker_job rpc false "" pages) (chrome_job pages rpc) wk h in
        (rpc, j, id, es, eo, ec, first, named, same)

-- A request for a page by chrome panics exactly on a worker without a chrome job.
chrome_panics :
    (rpc : Rpc) (url wresp_id : String) (wk : Worker)
    → (do_chrome_request rpc url wresp_id (some wk) ≡ panics) ↔ (wk.c_job ≡ none)
unfolding do_chrome_request ask
chrome_panics rpc url wresp_id wk = go wk.c_job
  where
    go : (o : Option CrawlJob) → (ask rpc url wresp_id o ≡ panics) ↔ (o ≡ none)
    go none = ((λ _. refl), (λ _. refl))
    go (some cj) = ((λ h. cc), (λ h. cc))

-- `createNewClient` makes a worker of a connection exactly if the connection works, the worker starts
-- a first job and gives its id. Whether the job for chrome starts makes no difference.
pub create_new_client-Adds_iff :
    (pages : Option (Chan PageHtml)) (conn : Dial) (wk : Worker)
    → (create_new_client pages conn ≡ some wk) ↔ Adds pages conn wk
create_new_client-Adds_iff pages conn wk = (added_by pages conn wk, adds pages conn wk)

-- A request for a page by chrome, to a worker that `createNewClient` has made of a connection,
-- panics exactly if the job for chrome did not start there.
pub do_chrome_request-panics_iff :
    (pages : Option (Chan PageHtml)) (conn : Dial) (wk : Worker) (rpc : Rpc) (url wresp_id : String)
    → create_new_client pages conn ≡ some wk
    → conn.client ≡ val rpc
    → (do_chrome_request rpc url wresp_id (some wk) ≡ panics) ↔ (chrome_job pages rpc ≡ none)
do_chrome_request-panics_iff pages conn wk rpc url wresp_id h c =
    let (rpc', j, id, s, o, c', first, named, same) = added_by pages conn wk h in
    subst (λ k. (do_chrome_request rpc url wresp_id (some wk) ≡ panics) ↔ (k ≡ none))
      (ap (λ v. v.c_job) same ∙ ap (chrome_job pages) (client_same rpc' (sym c' ∙ c)))
      (chrome_panics rpc url wresp_id wk)
  where
    client_same : (rpc' : Rpc) → val rpc' ≡ val rpc → rpc' ≡ rpc
    client_same rpc' e = cc
