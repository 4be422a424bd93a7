-- ===== src/RunJob.antt =====
-- `RunJob` of job.go: the settings of the fetcher, the goroutine that takes page requests, the seed,
-- and the moves by which a job ends. fetchbot and the HTTP clients are not modelled.
pub mod Requests
pub mod Lifecycle
pub mod Setup
pub mod Settings
pub mod Ending
mod Tests
use ideacrawler.Prelude.{
  String, Bool, true, false, not, ◌&&◌, Option, none, some, List, [], ◌∷◌, ◌++◌, Outcome, ok,
  panics, ◌>>=◌, Result, val, err, if◌then◌else◌, str_eq,
}
use ideacrawler.Prelude.Int.{ℤ, pos, ltb_ℤ, eqb_ℤ}
use ideacrawler.Prelude.Dict.{mark}
use ideacrawler.Prelude.Chan.{recv_rest, close}
use ideacrawler.Proto.{DomainOpt, PageRequest, PageReqType, get, head, builtinjs, jscript, other}
use ideacrawler.Job.{Job, Url, CrawlCommand, waiting, woken, gone, set_send_chan}
use ideacrawler.Web.{Web}
use ideacrawler.Server.{Mode, standalone, worker, server}

-- Which client `RunJob` gives to the fetcher: the manager of the workers or that of their chrome
-- jobs, or one of the four that this process makes.
pub data HttpClient : Type 0 where
  by_worker by_chrome_worker raw_direct login_direct raw_chrome login_chrome : HttpClient

unfoldable pub local_client : Bool → Bool → HttpClient
local_client chrome login =
    if not chrome
    then (if not login then raw_direct else login_direct)
    else (if not login then raw_chrome else login_chrome)

unfoldable pub http_client : Mode → DomainOpt → HttpClient
http_client server opts = if not opts.chrome then by_worker else by_chrome_worker
http_client standalone opts = local_client opts.chrome opts.login
http_client worker opts = local_client opts.chrome opts.login

-- `f.WorkerIdleTTL`, in seconds.
unfoldable pub worker_idle_ttl : DomainOpt → ℤ
worker_idle_ttl opts =
    if eqb_ℤ opts.max_idle_time (pos 0)
    then pos 600
    else if ltb_ℤ opts.max_idle_time (pos 10)
    then pos 10
    else opts.max_idle_time

-- Whether a goroutine's loop goes on.
abbrev pub GoesOn : Type 0
GoesOn = Bool

module _ (w : Web) (path_escape query_escape : String → String) where
  -- `newCrawlCommand`. The command is only used when there is no error.
  unfoldable pub new_crawl_command : String → String → String → ℤ → Result CrawlCommand
  new_crawl_command method urlstr meta_str url_depth = elim (w.parse_url urlstr) [
    | err e ↦ err e
    | val u ↦ val (record {
      method = method;
      url = u;
      no_callback = false;
      meta_str = meta_str;
      url_depth = url_depth;
      anchor_text = "";
    })
  ]

  -- A request to run a script: its URL carries the script and the page that it is for.
  abbrev pub js_command : String → PageRequest → Url → CrawlCommand
  js_command scheme pr pr_url = record {
    method = "GET";
    url = record {
      scheme = scheme;
      host = pr_url.host;
      path = path_escape pr.js;
      raw_query = query_escape pr.url;
      fragment = "";
    };
    no_callback = pr.no_callback;
    meta_str = pr.meta_str;
    url_depth = pos 0;
    anchor_text = "";
  }

  new_js_command : String → PageRequest → Result CrawlCommand
  new_js_command scheme pr = elim (w.parse_url pr.url) [
    | err e ↦ err e
    | val u ↦ val (js_command scheme pr u)
  ]

  -- The command for a request, `none` for a type that the switch has no case for.
  request_command : PageReqType → PageRequest → Option (Result CrawlCommand)
  request_command get pr = some (new_crawl_command "GET" pr.url pr.meta_str (pos 0))
  request_command head pr = some (new_crawl_command "HEAD" pr.url pr.meta_str (pos 0))
  request_command builtinjs pr = some (new_js_command "crawljs-builtinjs" pr)
  request_command jscript pr = some (new_js_command "crawljs-jscript" pr)
  request_command (other n) pr = none

  -- `err = q.Send(cmd)`: after an error the goroutine returns.
  unfoldable pub send_command : CrawlCommand → Job → Job × GoesOn
  send_command cmd j = elim (w.queue_send j.queue cmd) [
    | some e ↦ (j, false)
    | none ↦ (record j { queue = j.queue ++ cmd ∷ [] }, true)
  ]

  enqueue_command : Option (Result CrawlCommand) → Job → Job × GoesOn
  enqueue_command none j = (j, true)
  enqueue_command (some (err e)) j = (j, false)
  enqueue_command (some (val cmd)) j = send_command cmd j

  -- The case `pr := <-j.subscriber.reqChan`.
  unfoldable pub take_request : PageRequest → Job → Job × GoesOn
  unfolding enqueue_command request_command new_js_command
  take_request pr j = enqueue_command (request_command pr.reqtype pr) j

  -- `handlePagesLoop`, on the requests that come before `doneChan` is closed: the job afterwards,
  -- and the requests that are never taken out of the channel because the goroutine has returned.
  unfoldable pub handle_pages : List PageRequest → Job → Job × List PageRequest
  handle_pages [] j = (j, [])
  handle_pages (pr ∷ prs) j =
      let (j', goes_on) = take_request pr j in
      let rest = handle_pages prs j' in if goes_on then rest else (j', prs)

  unfoldable pub seed_with : Result CrawlCommand → Job → Job × GoesOn
  seed_with (err e) j = (j, false)
  seed_with (val cmd) j = send_command cmd j

  -- The seed URL, before `q.Block()`. Without it, or when it is queued, the job goes on.
  unfoldable pub enqueue_seed : Job → Job × GoesOn
  unfolding seed_with
  enqueue_seed j =
      let url = j.opts.seed_url in
      if str_eq url ""
      then (j, true)
      else seed_with (new_crawl_command "GET" url "" (pos 0))
          (record j { duplicates = mark url j.duplicates })

-- The goroutine that handles cancels starts.
unfoldable pub start_canceller : Job → Job
start_canceller j = record j { canceller = waiting }

-- Its case `<-j.subscriber.stopChan`, up to the close.
unfoldable pub take_stop : Job → Job
take_stop j = record j {
  canceller = woken;
  subscriber = record (j.subscriber) { stop_chan = recv_rest (j.subscriber.stop_chan) };
}

-- `close(j.doneChan); q.Cancel()`. A second close panics.
unfoldable pub cancel_queue : Job → Outcome Job
cancel_queue j =
    if j.done_closed then panics else ok (record j { done_closed = true; canceller = gone })

-- The deferred function of `RunJob`: first the send channel, then, if the select finds `doneChan`
-- open, that too.
unfoldable pub close_send : Job → Outcome Job
close_send j = close j.subscriber.send_chan >>= λ c. ok (set_send_chan j c)

unfoldable pub close_done : Job → Outcome Job
close_done j = if j.done_closed then panics else ok (record j { done_closed = true })
