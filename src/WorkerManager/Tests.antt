-- ===== src/WorkerManager/Tests.antt =====
-- The theorems on workermanager.go at small inputs.
use ideacrawler.Prelude.{
  String, Bool, true, false, List, [], ◌∷◌, none, some, panics, val, err, ◌≡◌, ◌↔◌, ◌⊎◌, refl, ◌+◌,
  arith, All,
}
use ideacrawler.Prelude.Int.{pos}
use ideacrawler.Prelude.Dict.{marked, mark, lookup, insert}
use ideacrawler.Proto.{PageHtml}
use ideacrawler.Job.{Job}
use ideacrawler.Samples.{site, start_job, seed_command, site_url}
use ideacrawler.Web.{Response}
use ideacrawler.Fetch.{fetch_http_get_handler, fetch_error_handler}
use ideacrawler.Server.Rpc.Streams.{subscription_page}
use ideacrawler.WorkerQueue.{next, next_loop, pop}
use ideacrawler.GoClient.Spec.{new_job_spec, no_follow, impolite, page_chan, max_idle_time, chrome}
use ideacrawler.GoClient.CrawlJob.{Rpc, new_crawl_job, get_worker_id}
use ideacrawler.WorkerManager.{
  Worker, Dial, worker_spec, new_worker_job, create_new_client, do_chrome_request,
}
use ideacrawler.WorkerManager.Protocol.{
  Manager, Serve, stay, go, begin, then_, new_manager, ask, take_request, load, answering,
  Serves-answers,
}
use ideacrawler.WorkerManager.Responses.{
  Responses, Event, wait, response, resp_handler, register, handle_response, Own, send_response,
  resp_handler-Own,
}
use ideacrawler.WorkerManager.Answers.{Answers, html_route, worker_job-Answers}
use mathlib.Core.List.{Memᴰ}
use ideacrawler.RunJob.Setup.{make_mux}
use ideacrawler.WorkerManager.Clients.{chrome_job, do_chrome_request-panics_iff}

-- One caller asks a manager without workers, and `run` takes the request: two serving moves to go.
abbrev asked : Manager String
asked = record (new_manager String) { asked = 1; waiting = 1 }

abbrev ready : String → Bool
ready s = true

abbrev taken : Manager String
taken = record asked { asked = 0; workers = []; runner = answering none }

Serves-answers_example :
    (load ready asked ≡ 1 + load ready taken)
    × ((taken.waiting ≡ 0) ⊎ ((m : Manager String) × Serve ready taken m))
unfolding next next_loop pop
Serves-answers_example =
    Serves-answers ready (then_ begin (ask (omega arith))) (go (take_request refl refl refl) stay)

abbrev named_page : PageHtml
named_page = record (subscription_page (record { id = "job" })) { meta_str = "call" }

abbrev events : List Event
events = wait "call" "channel" ∷ response (some named_page) ∷ []

abbrev served : Responses
served = record {
  waiting_list = ("call", "channel") ∷ [];
  pending = ("channel", false) ∷ [];
  answers = ("channel", named_page) ∷ [];
}

resp_handler-Own_example : All (Own events) served.answers
unfolding resp_handler register handle_response send_response marked mark lookup insert
resp_handler-Own_example = resp_handler-Own events served refl

abbrev worker_job : Job
worker_job = record start_job { opts = (worker_spec false "" none).dopt }

abbrev gone : Response
gone = record {
  request_url = site_url "/";
  status_code = pos 404;
  status = "404 Not Found";
  body = val "";
}

worker_job-Answers_example :
    Memᴰ html_route (make_mux worker_job.opts).responses
    × All (λ route. route.content_type ≡ some "text/html") (make_mux worker_job.opts).responses
    × Answers site false seed_command gone worker_job
        (fetch_http_get_handler site false seed_command gone worker_job)
    × Answers site false seed_command gone worker_job
        (fetch_error_handler site false seed_command "timeout" worker_job)
worker_job-Answers_example =
    worker_job-Answers site false seed_command gone false "" none worker_job "timeout" refl refl
      refl refl

-- A worker without a chrome binary.
abbrev rpc : Rpc
rpc = record {
  add_domain = λ spec. elim spec.dopt.chrome [
    | true ↦ err "no chrome"
    | false ↦ val (val (subscription_page (record { id = "job" })))
  ];
  open_pages = none;
  send_page = λ r. none;
  analyzed = λ i. val [];
  get_worker_id = val (record { id = "worker" });
}

abbrev conn : Dial
conn = record { session = none; opened = none; client = val rpc }

abbrev worker : Worker
worker = record { id = "worker"; job = new_worker_job rpc false "" none; c_job = none }

do_chrome_request-panics_iff_example :
    (do_chrome_request rpc "/" "call" (some worker) ≡ panics) ↔ (chrome_job none rpc ≡ none)
unfolding create_new_client new_worker_job new_crawl_job get_worker_id new_job_spec no_follow
    impolite page_chan max_idle_time chrome
do_chrome_request-panics_iff_example =
    do_chrome_request-panics_iff none conn worker rpc "/" "call" refl refl
