-- ===== src/GoClient/Tests.antt =====
-- The theorems on the client's job at a small one.
use ideacrawler.Prelude.{true, false, List, [], ◌∷◌, map, none, some, val, ◌≡◌, refl, arith}
use ideacrawler.Proto.{JobId, jscript}
use ideacrawler.Server.Rpc.Streams.{subscription_page}
use ideacrawler.GoClient.Spec.{new_job_spec, no_follow}
use ideacrawler.GoClient.CrawlJob.{
  CrawlJob, Rpc, is_alive, add_page, add_js, send_request, page, eof, finish,
}
use ideacrawler.GoClient.Requests.{Call, page_call, js_call, sent, request_of}
use ideacrawler.GoClient.Passing.{start_run, receive, ends, begin, then_, Passes, Relays-Passes}

abbrev id : JobId
id = record { id = "job" }

-- A worker that takes everything.
abbrev worker : Rpc
worker = record {
  add_domain = λ spec. val (val (subscription_page id));
  open_pages = none;
  send_page = λ r. none;
  analyzed = λ i. val [];
  get_worker_id = val (record { id = "worker" });
}

abbrev live_job : CrawlJob
live_job = record {
  spec = new_job_spec (no_follow ∷ []);
  started = true;
  stopped = false;
  has_pages_client = false;
  id = some id;
}

abbrev calls : List Call
calls = page_call "/a" "m1" ∷ js_call jscript "/b" "go()" "m2" ∷ []

both_go_out : sent worker calls live_job ≡ map (request_of live_job) calls
unfolding is_alive add_page add_js send_request
both_go_out = refl

-- The end of the stream comes before the page is passed on.
Relays-Passes_example :
    Passes (page (subscription_page id) ∷ eof ∷ []) (record (start_run live_job (eof ∷ [])) {
      cj = (finish (record live_job { started = true })).0;
      ph_chan = subscription_page id ∷ [];
      closed = true;
    })
Relays-Passes_example = Relays-Passes live_job (page (subscription_page id) ∷ eof ∷ []) (
    then_ (then_ begin (receive (subscription_page id) (eof ∷ []) refl refl (omega arith)))
      (ends eof [] refl refl refl))
