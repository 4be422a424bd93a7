-- ===== src/RunJob/Tests.antt =====
-- The theorems on `RunJob` at a small job.
use ideacrawler.Prelude.{
  String, true, false, List, [], ◌∷◌, none, some, ok, val, panics, ◌≡◌, ◌↔◌, refl,
}
use ideacrawler.Prelude.Chan.{Chan}
use ideacrawler.Proto.{PageRequest, PageHtml, get}
use ideacrawler.Job.{Job, unstarted, woken, request_cancel, set_send_chan}
use ideacrawler.Samples.{site, start_job, browser}
use ideacrawler.Server.{standalone}
use ideacrawler.Login.{doer}
use ideacrawler.RunJob.Setup
use ideacrawler.RunJob.Setup.{Outside, make_client, run_job}
use ideacrawler.RunJob.Ending.{Leaves, run_job-Leaves}
use ideacrawler.RunJob.{
  handle_pages, take_request, send_command, new_crawl_command, start_canceller, cancel_queue,
  close_send, close_done, http_client, local_client,
}
use ideacrawler.RunJob.Requests.{Takes, handle_pages-Takes}
use ideacrawler.RunJob.Lifecycle.{
  Run, Reach, begin, next, start, cancel, end_send, end_open, end_done, ended, Reach-panics_iff,
}

abbrev ask : String → PageRequest
ask url = record {
  job_id = some (record { id = "job" });
  reqtype = get;
  url = url;
  js = "";
  no_callback = false;
  meta_str = "";
}

abbrev escape : String → String
escape s = s

abbrev requests : List PageRequest
requests = ask "/a" ∷ ask "" ∷ ask "/b" ∷ []

-- The second URL does not parse, and the third request is never taken.
handle_pages-Takes_example :
    Takes site escape escape requests start_job (handle_pages site escape escape requests start_job)
handle_pages-Takes_example = handle_pages-Takes site escape escape requests start_job

last_left : (handle_pages site escape escape requests start_job).1 ≡ ask "/b" ∷ []
unfolding handle_pages take_request send_command new_crawl_command
last_left = refl

abbrev fresh_job : Job
fresh_job = record start_job { canceller = unstarted }

abbrev closed_chan : Chan PageHtml
closed_chan = record { cap = 1000; items = []; closed = true }

-- A cancel, which `RunJob` overtakes.
abbrev cancelled_job : Job
cancelled_job = record fresh_job { canceller = woken }

abbrev sent_job : Job
sent_job = set_send_chan cancelled_job (some closed_chan)

abbrev ended_job : Job
ended_job = record sent_job { done_closed = true }

abbrev ended_run : Run
ended_run = record { phase = ended; job = ended_job }

overtaken : Reach ended_run
unfolding start_canceller request_cancel close_send close_done
overtaken =
    next
      (next
        (next
          (next (next (begin {j = fresh_job} refl refl) start) (cancel {j' = cancelled_job} refl))
          (end_send {j' = sent_job} refl))
        (end_open refl))
      (end_done {j' = ended_job} refl)

Reach-panics_iff_example : (cancel_queue ended_job ≡ panics) ↔ (ended_run.phase ≡ ended)
Reach-panics_iff_example = Reach-panics_iff {r = ended_run} overtaken refl

abbrev outside : Outside
outside = record {
  log_path = "";
  create = λ file. none;
  path_join = λ dir file. file;
  path_escape = escape;
  query_escape = escape;
  site = record {
    login_page = val "form";
    compile_error = λ s. none;
    post_form = λ fields. val "again";
  };
  prefer_stop = true;
  ccl = none;
  start_browser = browser;
  page_browser = browser;
  script_browser = browser;
  fuel = 3;
}

made_direct :
    make_client site outside (http_client standalone start_job.opts) start_job
    ≡ ok (start_job, val doer)
unfolding make_client http_client local_client
made_direct = refl

run_job-Leaves_example :
    (r : Setup.Begun) × (run_job site outside standalone "job" start_job ≡ ok r)
    × Leaves site outside standalone "job" start_job r
run_job-Leaves_example =
    run_job-Leaves site outside standalone "job" start_job made_direct
      ((record { cap = 1000; items = []; closed = false }, refl, refl), refl)
