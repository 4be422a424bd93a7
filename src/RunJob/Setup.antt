-- ===== src/RunJob/Setup.antt =====
-- `RunJob` of job.go from its start to the crawl: the log, the HTTP client, the handlers and settings
-- of the fetcher, the seed, and the deferred function on every early return. The goroutines that it
-- starts are in RunJob and RunJob/Lifecycle.
use ideacrawler.Prelude.{
  ℕ, String, Bool, true, not, ◌&&◌, ◌<>◌, List, [], ◌∷◌, Option, none, some, Outcome, ok, ◌>>=◌,
  Result, val, err, str_eq, if◌then◌else◌, on_error,
}
use ideacrawler.Prelude.Int.{ℤ}
use ideacrawler.Proto.{DomainOpt}
use ideacrawler.Job.{Job, done}
use ideacrawler.Web.{Web}
use ideacrawler.Server.{Mode}
use ideacrawler.Login.{Site, Client, doer, login_direct as log_in_direct}
use ideacrawler.Login.Chrome as LoginChrome
use ideacrawler.ChromeClient.{ChromeClient, Browser}
use ideacrawler.RunJob.{
  HttpClient, by_worker, by_chrome_worker, raw_direct, login_direct, raw_chrome, login_chrome,
  http_client, worker_idle_ttl, start_canceller, enqueue_seed, close_send, close_done,
}

-- The file of `setupJobLogger`. `path_join` is `path.Join`.
abbrev pub log_file : (String → String → String) → String → String → String
log_file path_join log_path sub_id =
    if str_eq log_path "" then "/dev/stdout" else path_join log_path ("job-" <> sub_id <> ".log")

-- Its error; `create` gives that of `os.Create`.
unfoldable pub setup_job_logger :
    (String → String → String) → (String → Option String) → String → String → Option String
setup_job_logger path_join create log_path sub_id = create (log_file path_join log_path sub_id)

-- `makeNetworkTransport`: the address that it dials from, if it is not the default transport.
abbrev pub make_network_transport : String → DomainOpt → Option String
make_network_transport dial_address opts =
    if not (str_eq opts.network_iface "") && not (str_eq dial_address "")
    then some dial_address
    else none

-- The `http.Client` of `makeHTTPClientRawDirect`: its transport, and the directory of the cache
-- around that.
pub record DirectClient : Type 0 where
  pub transport : Option String
  pub cache : Option String

abbrev pub make_raw_direct : Option String → Job → DirectClient
make_raw_direct transport j = record {
  transport = transport;
  cache = if j.opts.prefetch then some ("/tmp/ideacache/" <> j.id.id) else none;
}

pub data Handler : Type 0 where
  fetch_error_handler fetch_http_get_handler fetch_http_head_handler : Handler

-- A registration with the mux: a handler for a method, for all content types or one.
pub record Route : Type 0 where
  pub method : String
  pub content_type : Option String
  pub handler : Handler

pub record Mux : Type 0 where
  pub errors : Handler
  pub responses : List Route

abbrev pub with_mimetype : DomainOpt → Option String
with_mimetype opts = if str_eq opts.mimetype "" then none else some opts.mimetype

abbrev pub make_mux : DomainOpt → Mux
make_mux opts = record {
  errors = fetch_error_handler;
  responses =
      record { method = "GET"; content_type = with_mimetype opts; handler = fetch_http_get_handler }
      ∷ record {
        method = "HEAD";
        content_type = with_mimetype opts;
        handler = fetch_http_head_handler;
      }
      ∷ [];
}

-- The fetcher as it is started. The delay is in milliseconds, the idle time in seconds.
pub record Fetcher : Type 0 where
  pub mux : Mux
  pub http_client : Client
  pub disable_politeness : Bool
  pub crawl_delay : ℕ
  pub worker_idle_ttl : ℤ
  pub auto_close : Bool
  pub user_agent : String
  pub threads_per_site : ℤ

-- On the options after the client was made. The mux is made before, which does not matter: the
-- mimetype stays as it is.
abbrev pub make_fetcher : DomainOpt → Client → Fetcher
make_fetcher opts client = record {
  mux = make_mux opts;
  http_client = client;
  disable_politeness = opts.impolite;
  crawl_delay = 50;
  worker_idle_ttl = worker_idle_ttl opts;
  auto_close = true;
  user_agent = opts.useragent;
  threads_per_site = opts.threads_per_site;
}

-- The deferred function.
unfoldable pub deferred : Job → Outcome Job
deferred j = close_send j >>= λ j'. if done j' then ok j' else close_done j'

-- `RunJob` has returned, with or without its deferred function, or it waits for the queue.
pub data Begun : Type 0 where
  unlogged ended : Job → Begun
  crawls : Job → Fetcher → Begun

pub record Outside : Type 0 where
  pub log_path : String
  pub create : String → Option String
  pub path_join : String → String → String
  pub path_escape : String → String
  pub query_escape : String → String
  pub site : Site
  -- A waiting stop signal is taken before a page is sent.
  pub prefer_stop : Bool
  pub ccl : Option ChromeClient
  pub start_browser : Browser
  pub page_browser : Browser
  pub script_browser : Browser
  -- The turns allowed to a script that scrolls.
  pub fuel : ℕ

module _ (w : Web) (out : Outside) where
  -- The client of each kind, with the job, whose options chrome changes.
  unfoldable pub make_client : HttpClient → Job → Outcome (Job × Result Client)
  make_client by_worker j = ok (j, val doer)
  make_client by_chrome_worker j = ok (j, val doer)
  make_client raw_direct j = ok (j, val doer)
  make_client login_direct j = log_in_direct w out.site out.prefer_stop j
  make_client raw_chrome j =
      let (j', _, _, client) = LoginChrome.raw_chrome out.start_browser j out.ccl in ok (j', client)
  make_client login_chrome j =
      LoginChrome.log_in_chrome w out.site.compile_error out.prefer_stop out.path_escape
        out.query_escape out.page_browser out.script_browser out.fuel out.start_browser j out.ccl
      >>= λ (j', _, client). ok (j', client)

  unfoldable pub end_run : Job → Outcome Begun
  end_run j = deferred j >>= λ j'. ok (ended j')

  -- With the fetcher started.
  unfoldable pub start_crawl : Job → Client → Outcome Begun
  start_crawl j client =
      let (j', goes_on) = enqueue_seed w out.path_escape out.query_escape (start_canceller j) in
      if goes_on then ok (crawls j' (make_fetcher j.opts client)) else end_run j'

  unfoldable pub with_client : Job → Result Client → Outcome Begun
  with_client j (err e) = end_run j
  with_client j (val client) = start_crawl j client

  -- `RunJob`. The deferred function is registered after the log is open.
  unfoldable pub run_job : Mode → String → Job → Outcome Begun
  run_job mode sub_id j =
      on_error (setup_job_logger out.path_join out.create out.log_path sub_id)
        (λ e. ok (unlogged j))
        (make_client (http_client mode j.opts) j >>= λ (j', client). with_client j' client)
