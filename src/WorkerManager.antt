-- ===== src/WorkerManager.antt =====
-- workermanager.go: the manager of the cluster's workers, without the listener. `Protocol` has the
-- goroutine `run`, `Responses` has `respHandler`.
pub mod Protocol
pub mod Responses
pub mod Answers
pub mod Clients
pub mod Listener
mod Tests
use ideacrawler.Prelude.{
  String, Bool, true, false, List, [], ◌∷◌, Option, none, some, Outcome, ok, panics, Result, val,
  err, if◌then◌else◌,
}
use ideacrawler.Prelude.Int.{ℤ, pos}
use ideacrawler.Prelude.Chan.{Chan}
use ideacrawler.Proto.{PageHtml, PageRequest}
use ideacrawler.GoClient.Spec.{
  JobSpec, JobOption, new_job_spec, no_follow, impolite, page_chan, max_idle_time, chrome,
}
use ideacrawler.GoClient.CrawlJob.{CrawlJob, Rpc, new_crawl_job, get_worker_id, add_page}

-- A nil job is `none`. The connection `w` is what the queue asks for its state.
pub record Worker : Type 0 where
  pub id : String
  pub job : Option CrawlJob
  pub c_job : Option CrawlJob

abbrev pub worker_options : Bool → String → Option (Chan PageHtml) → List JobOption
worker_options use_chrome binary pages =
    no_follow
    ∷ impolite
    ∷ page_chan pages
    ∷ max_idle_time (pos 31536000)
    ∷ chrome use_chrome binary
    ∷ []

abbrev pub worker_spec : Bool → String → Option (Chan PageHtml) → JobSpec
worker_spec use_chrome binary pages = new_job_spec (worker_options use_chrome binary pages)

abbrev job_or_nil : Result CrawlJob → Option CrawlJob
job_or_nil (val cj) = some cj
job_or_nil (err e) = none

unfoldable pub new_worker_job : Rpc → Bool → String → Option (Chan PageHtml) → Option CrawlJob
new_worker_job rpc use_chrome binary pages =
    job_or_nil (new_crawl_job rpc (worker_spec use_chrome binary pages))

-- What the connection gives: `yamux.Client`, `session.Open` and `gc.NewWorker`, each with its error
-- if it has one, and the client.
pub record Dial : Type 0 where
  pub session : Option String
  pub opened : Option String
  pub client : Result Rpc

abbrev named : Option CrawlJob → Option CrawlJob → Result String → Option Worker
named j cj (err e) = none
named j cj (val id) = some (record { id = id; job = j; c_job = cj })

-- From the first job on. The second check is of `j` again, not of `cj`.
with_jobs : Rpc → Option CrawlJob → Option CrawlJob → Option Worker
with_jobs rpc none cj = none
with_jobs rpc (some j) cj = named (some j) cj (get_worker_id rpc)

dialled : Option (Chan PageHtml) → Result Rpc → Option Worker
dialled pages (err e) = none
dialled pages (val rpc) =
    with_jobs rpc (new_worker_job rpc false "" pages)
      (new_worker_job rpc true "/usr/bin/chromium" pages)

-- `createNewClient`: the worker that is added, if one is.
unfoldable pub create_new_client : Option (Chan PageHtml) → Dial → Option Worker
unfolding dialled with_jobs
create_new_client pages conn = elim conn.session [
  | some e ↦ none
  | none ↦ elim conn.opened [ some e ↦ none | none ↦ dialled pages conn.client ]
]

-- The `http.Response` that `Do` makes of a page. Its request is the one it was given.
pub record HttpResponse : Type 0 where
  pub status_code : ℤ
  pub status : String
  pub body : String
  pub content_type : String

-- `status_text` is `http.StatusText`.
unfoldable pub page_response : (ℤ → String) → PageHtml → HttpResponse
page_response status_text resp = record {
  status_code = resp.httpstatuscode;
  status = status_text resp.httpstatuscode;
  body = resp.content;
  content_type = "text/html";
}

unfoldable pub chrome_response : PageHtml → HttpResponse
chrome_response resp = record {
  status_code = resp.httpstatuscode;
  status = "";
  body = resp.content;
  content_type = "text/html";
}

-- `Do` up to the registration with `respHandler`: the requests that went to the worker, and the error
-- it returns or, without one, the id whose response it waits for. A call on a nil job panics.
ask : Rpc → String → String → Option CrawlJob → Outcome (List PageRequest × Result String)
ask rpc url wresp_id none = panics
ask rpc url wresp_id (some cj) =
    let (cj', sent, e) = add_page rpc url wresp_id cj in ok (sent, waits e)
  where
    waits : Option String → Result String
    waits none = val wresp_id
    waits (some m) = err m

-- `wresp_id` is a fresh uuid; the worker is the answer of `nextWorker`.
unfoldable pub do_request :
    Rpc → String → String → Option Worker → Outcome (List PageRequest × Result String)
unfolding ask
do_request rpc url wresp_id none = ok ([], err "no active workers")
do_request rpc url wresp_id (some w) = ask rpc url wresp_id w.job

unfoldable pub do_chrome_request :
    Rpc → String → String → Option Worker → Outcome (List PageRequest × Result String)
unfolding ask
do_chrome_request rpc url wresp_id none = ok ([], err "no active workers")
do_chrome_request rpc url wresp_id (some w) = ask rpc url wresp_id w.c_job
