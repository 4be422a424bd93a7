-- ===== src/GoClient/CrawlJob.antt =====
-- `CrawlJob` of goclient/ideacrawlerclient.go: a client's handle on a job of a worker.
--
-- `startedChan` and `stoppedChan` are only ever closed, so they are flags. The gRPC client is a
-- parameter: what opening a stream or sending on it comes to. The pauses have no counterpart. The
-- loop of `run` and the goroutine that passes pages on are in Passing; of what passes the analyzed
-- URLs on only the lists that the stream gives are kept.
use ideacrawler.Prelude.{
  String, Bool, true, false, not, ◌&&◌, List, [], ◌∷◌, Option, none, some, Outcome, ok, Result, val,
  err, if◌then◌else◌, is_some,
}
use ideacrawler.Prelude.Chan.{Chan, make}
use ideacrawler.Proto.{JobId, PageRequest, PageReqType, get, PageHtml, UrlList, WorkerId}
use ideacrawler.GoClient.Spec.{JobSpec}

-- `has_pages_client` is `addPagesClient != nil`.
pub record CrawlJob : Type 0 where
  pub spec : JobSpec
  pub started : Bool
  pub stopped : Bool
  pub has_pages_client : Bool
  pub id : Option JobId

-- The stub of the RPC client. An error is `some`.
pub record Rpc : Type 0 where
  -- `Client.AddDomainAndListen` and the first `Recv` of its stream.
  pub add_domain : JobSpec → Result (Result PageHtml)
  -- `Client.AddPages`, and `Send` on its stream.
  pub open_pages : Option String
  pub send_page : PageRequest → Option String
  -- `Client.GetAnalyzedURLs` and what the stream gives until it ends.
  pub analyzed : Option JobId → Result (List UrlList)
  pub get_worker_id : Result WorkerId

abbrev id_of : Result WorkerId → Result String
id_of (val wid) = val wid.id
id_of (err e) = err e

unfoldable pub get_worker_id : Rpc → Result String
get_worker_id rpc = id_of rpc.get_worker_id

-- `NewPageChan`, `NewAnalyzedURLChan`
abbrev pub new_page_chan : Chan PageHtml
new_page_chan = make 100

abbrev pub new_analyzed_url_chan : Chan UrlList
new_analyzed_url_chan = make 100

abbrev or_new {ℓ} : {A : Type ℓ} → Option A → A → Option A
or_new none a = some a
or_new (some b) a = some b

abbrev with_channels : JobSpec → JobSpec
with_channels spec = record spec {
  impl_page_chan = or_new spec.impl_page_chan new_page_chan;
  impl_analyzed_url_chan =
      if spec.use_analyzed_url_chan && not (is_some spec.impl_analyzed_url_chan)
      then some new_analyzed_url_chan
      else spec.impl_analyzed_url_chan;
}

subscribed : JobSpec → Result (Result PageHtml) → Result CrawlJob
subscribed spec (err e) = err e
subscribed spec (val (err e)) = err e
subscribed spec (val (val page)) = val (record {
  spec = with_channels spec;
  started = false;
  stopped = false;
  has_pages_client = false;
  id = page.job_id;
})

-- `NewCrawlJob`, up to `go cj.run()`.
unfoldable pub new_crawl_job : Rpc → JobSpec → Result CrawlJob
unfolding subscribed
new_crawl_job rpc spec = subscribed spec (rpc.add_domain spec)

unfoldable pub is_alive : CrawlJob → Bool
is_alive cj = if not cj.started then false else if cj.stopped then false else true

-- What a call on a job comes to: the job, the requests that went out, and the error.
abbrev pub Called : Type 0
Called = CrawlJob × List PageRequest × Option String

abbrev pub send_on : Rpc → CrawlJob → PageRequest → Called
send_on rpc cj r = elim (rpc.send_page r) [ none ↦ (cj, r ∷ [], none) | some e ↦ (cj, [], some e) ]

-- The stream is opened by the first request that needs it.
unfoldable pub send_request : Rpc → CrawlJob → PageRequest → Called
send_request rpc cj r = if cj.has_pages_client then send_on rpc cj r else elim rpc.open_pages [
  | some e ↦ (cj, [], some e)
  | none ↦ send_on rpc (record cj { has_pages_client = true }) r
]

abbrev page_message : String
page_message =
    "AddPage function can't be called when crawl job is not running. Please start crawl job first then call Addpage."

abbrev js_message : String
js_message =
    "AddJS function can't be called when crawl job is not running. Please start crawl job first then call AddJS."

abbrev pub page_request : CrawlJob → PageReqType → String → String → String → PageRequest
page_request cj typ url js meta_str = record {
  job_id = cj.id;
  reqtype = typ;
  url = url;
  js = js;
  no_callback = false;
  meta_str = meta_str;
}

unfoldable pub add_page : Rpc → String → String → CrawlJob → Called
add_page rpc url meta_str cj =
    if not (is_alive cj)
    then (cj, [], some page_message)
    else send_request rpc cj (page_request cj get url "" meta_str)

unfoldable pub add_js : Rpc → PageReqType → String → String → String → CrawlJob → Called
add_js rpc typ url js meta_str cj =
    if not (is_alive cj)
    then (cj, [], some js_message)
    else send_request rpc cj (page_request cj typ url js meta_str)

-- The id for which `Stop` calls `CancelJob`, if it calls it.
unfoldable pub stop : CrawlJob → Option (Option JobId)
stop cj = if is_alive cj then some cj.id else none

-- `initAnalyzedURL` and `listenAnalyzedURLs`: the lists that go into the client's channel.
lists_of : Result (List UrlList) → List UrlList
lists_of (val lists) = lists
lists_of (err e) = []

unfoldable pub init_analyzed_url : Rpc → CrawlJob → List UrlList
unfolding lists_of
init_analyzed_url rpc cj =
    if not cj.spec.use_analyzed_url_chan
    then []
    else if not (is_some cj.id)
    then []
    else lists_of (rpc.analyzed cj.id)

-- `cj.jobClient.Recv()`
pub data PageRecv : Type 0 where
  page : PageHtml → PageRecv
  eof : PageRecv
  failed : String → PageRecv

clean_up : Option (Outcome (Unit {0})) → Outcome (Unit {0})
clean_up none = ok tt
clean_up (some call) = call

-- The deferred function of `run`: `stoppedChan` is closed before the client's function is called.
unfoldable pub finish : CrawlJob → CrawlJob × Outcome (Unit {0})
unfolding clean_up
finish cj = (record cj { stopped = true }, clean_up cj.spec.clean_up_func)
