-- ===== src/Delivery/Tests.antt =====
-- Two calls of a client, on a server with one job.
use ideacrawler.Prelude.{String, true, false, [], ◌∷◌, none, some, val}
use ideacrawler.Prelude.Chan.{Chan}
use ideacrawler.Proto.{JobId, jscript}
use ideacrawler.Job.{Job}
use ideacrawler.Samples.{start_job}
use ideacrawler.Server.{Server, standalone}
use ideacrawler.Server.Rpc.Streams.{subscription_page}
use ideacrawler.GoClient.Spec.{new_job_spec, no_follow}
use ideacrawler.GoClient.CrawlJob.{CrawlJob, Rpc}
use ideacrawler.GoClient.Requests.{Call, page_call, js_call}

abbrev id : JobId
id = record { id = "job" }

abbrev stub : Rpc
stub = record {
  add_domain = λ spec. val (val (subscription_page id));
  open_pages = none;
  send_page = λ r. none;
  analyzed = λ i. val [];
  get_worker_id = val (record { id = "worker" });
}

abbrev live_job : CrawlJob
live_job = record {
  spec = new_job_spec (no_follow ∷ []);
  started = true;
  stopped = false;
  has_pages_client = false;
  id = some id;
}

abbrev crawling : Server
crawling = record {
  worker_id = "worker";
  mode = standalone;
  jobs = ("job", tt) ∷ [];
  store = ("job", start_job) ∷ [];
}

abbrev page : Call
page = page_call "/a" "m1"

abbrev script : Call
script = js_call jscript "/b" "go()" "m2"

abbrev escape : String → String
escape s = s
