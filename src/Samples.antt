-- ===== src/Samples.antt =====
-- A small site, a job that crawls it and a browser, for the tests.
use ideacrawler.Prelude.{
  ℕ, zero, suc, Result, String, true, false, [], ◌∷◌, none, some, val, err, str_eq, if◌then◌else◌,
}
use ideacrawler.Prelude.Int.{pos}
use ideacrawler.Prelude.Chan.{make}
use ideacrawler.Proto.{zero_opt}
use ideacrawler.Job.{Job, Subscriber, Url, CrawlCommand, waiting}
use ideacrawler.Web.{Web, Link}
use ideacrawler.ChromeClient.{Browser, ResponseReceived, Dump}

abbrev pub site_url : String → Url
site_url p = record { scheme = "http"; host = "site"; path = p; raw_query = ""; fragment = "" }

abbrev pub link : String → Link
link p = record { href = p; text = "more" }

-- Every page of the site links to /a twice, and to /b.
abbrev pub site : Web
site = record {
  parse_url = λ s. if str_eq s "" then err "empty url" else val (site_url s);
  url_string = λ u. u.path;
  hostname = λ u. u.host;
  resolve = λ base ref. val (record base { path = ref });
  query_unescape = λ s. val s;
  to_lower = λ s. s;
  trim_space = λ s. s;
  normalize_url = λ unsafe u. (u, u.path);
  xpath_value = λ body expr. some "Home";
  find_links = λ body. val (link "/a" ∷ link "/a" ∷ link "/b" ∷ []);
  queue_send = λ q c. none;
}

abbrev pub seed_command : CrawlCommand
seed_command = record {
  method = "GET";
  url = site_url "/";
  no_callback = false;
  meta_str = "m";
  url_depth = pos 0;
  anchor_text = "";
}

abbrev pub client : Subscriber
client = record {
  done_seqnum = pos 0;
  req_chan = some (make 1000);
  send_chan = some (make 1000);
  stop_chan = some (make 3);
  analyzed_url_chan = none;
  stop_analyzed_url_chan = none;
  analyzed_url_connected = false;
  connected = true;
}

-- A crawl of depth 2 from the seed "/".
abbrev pub start_job : Job
start_job = record {
  domainname = "site";
  opts = record zero_opt { seed_url = "/"; depth = pos 2 };
  id = record { id = "job" };
  seqnum = pos 0;
  callback_url_regexp = none;
  follow_url_regexp = none;
  callback_anchor_text_regexp = none;
  subscriber = client;
  duplicates = ("/", true) ∷ [];
  canceller = waiting;
  done_closed = false;
  queue = seed_command ∷ [];
}

abbrev pub moved : ResponseReceived
moved = record { url = "/old"; status = pos 301; status_text = "Moved"; headers = [] }

abbrev pub shown : ResponseReceived
shown = record {
  url = "/home/";
  status = pos 200;
  status_text = "OK";
  headers = ("server", "s") ∷ ("content-type", "text/html") ∷ [];
}

abbrev page : Dump
page = record {
  history = val (record { entries = "about:blank" ∷ "/home" ∷ []; current_index = pos 1 });
  document = none;
  outer_html = val "<html>";
}

-- The page grows once, and then stays as it is.
abbrev heights : ℕ → String → Result String
heights zero script = val "grown"
heights (suc n) script = val "same"

-- A browser that starts, and goes to "/" with a redirect from "http".
abbrev pub browser : Browser
browser = record {
  free_port = none;
  start_process = none;
  stays_up = true;
  devtool_get = none;
  dial = none;
  enabled = none ∷ none ∷ [];
  new_manager = none;
  create_target = val "t1";
  dial_target = none;
  page_enabled = none ∷ none ∷ [];
  response_received = none;
  enable = none;
  dom_content_event_fired = none;
  navigate = none;
  dom_content = none;
  events = val moved ∷ val shown ∷ [];
  navigated = page;
  scripted = page;
  evaluate = heights;
  unmarshal_heights = λ json. if str_eq json "same" then val (pos 9, pos 9) else val (pos 8, pos 9);
  path_unescape = λ s. val s;
  itoa = λ n. "5000";
}
