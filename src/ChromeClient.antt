-- ===== src/ChromeClient.antt =====
-- chromeclient/chromeclient.go: the browser process, its tabs, and how one is opened. What is
-- done in a tab is in Navigate and Script.
--
-- The browser and the cdp library are outside. What they answer in the course of one call of `Do` is
-- in `Browser`, and what the code asks of the tabs is kept in `tabs`. The deadline of `navigate` and
-- the waits for the page to load only show in those answers.
pub mod Navigate
pub mod Script
pub mod Opening
pub mod Tabs
pub mod Scroll
pub mod Answers
pub mod Encoding
pub mod Startup
pub mod Returning
pub mod Outcomes
mod Tests
use ideacrawler.Prelude.{
  on_error, String, ◌<>◌, Bool, true, false, ◌||◌, List, [], ◌∷◌, ◌++◌, Option, none, some, Outcome,
  ok, panics, ◌>>=◌, Result, val, err, ℕ, if◌then◌else◌,
}
use ideacrawler.Prelude.Int.{ℤ, pos}
use ideacrawler.Job.{Url}

pub data TabCall : Type 0 where
  create_target close_target : String → TabCall

-- The pointers are flags, whether they are set. The times are in seconds.
pub record ChromeClient : Type 0 where
  pub cpath : String
  pub conn : Bool
  pub c : Bool
  pub mgr : Bool
  pub dom_load_time : ℤ
  pub up : Bool
  -- What was asked of the browser's tabs so far.
  pub tabs : List TabCall

pub record ChromeDoer : Type 0 where
  pub dom_load_time : ℤ

pub record History : Type 0 where
  pub entries : List String
  pub current_index : ℤ

-- `ResponseReceived`: its response. The headers are in the order of the loop over them.
pub record ResponseReceived : Type 0 where
  pub url : String
  pub status : ℤ
  pub status_text : String
  pub headers : List (String × String)

-- What a tab answers about its page at one time.
pub record Dump : Type 0 where
  pub history : Result History
  pub document : Option String
  pub outer_html : Result String

-- The errors are those of the calls.
pub record Browser : Type 0 where
  -- `Start`; `stays_up` is what the goroutine that waits for the process has left in `up`.
  pub free_port : Option String
  pub start_process : Option String
  pub stays_up : Bool
  pub devtool_get : Option String
  pub dial : Option String
  pub enabled : List (Option String)
  pub new_manager : Option String
  -- `newPage`
  pub create_target : Result String
  pub dial_target : Option String
  pub page_enabled : List (Option String)
  pub response_received : Option String
  -- `navigate`
  pub enable : Option String
  pub dom_content_event_fired : Option String
  pub navigate : Option String
  pub dom_content : Option String
  -- `rspRcvd.Recv()`, in turn. Nothing comes after them.
  pub events : List (Result ResponseReceived)
  -- The page after the navigation, and after the script.
  pub navigated : Dump
  pub scripted : Dump
  -- `Runtime.Evaluate`, the n-th of a call, with the JSON of its value, and how that is read.
  pub evaluate : ℕ → String → Result String
  pub unmarshal_heights : String → Result (ℤ × ℤ)
  -- `url.PathUnescape`, `strconv.Itoa`
  pub path_unescape : String → Result String
  pub itoa : ℤ → String

-- An `http.Response` with its one header.
pub record ChromeResponse : Type 0 where
  pub status_code : ℤ
  pub status : String
  pub body : String
  pub request_url : Url
  pub content_type : Option String

-- `NewChromeClient`
abbrev pub new_chrome_client : String → ChromeClient
new_chrome_client path = record {
  cpath = path;
  conn = false;
  c = false;
  mgr = false;
  dom_load_time = pos 5;
  up = false;
  tabs = [];
}

-- `NewChromeDoer`, and `SetDomLoadTime` of the two types
abbrev pub new_chrome_doer : ChromeClient → ChromeDoer
new_chrome_doer chrome = record { dom_load_time = chrome.dom_load_time }

abbrev pub set_dom_load_time : ℤ → ChromeDoer → ChromeDoer
set_dom_load_time secs cd = record cd { dom_load_time = secs }

abbrev pub set_client_dom_load_time : ℤ → ChromeClient → ChromeClient
set_client_dom_load_time secs chrome = record chrome { dom_load_time = secs }

-- `runBatch`, on the errors of the functions in the order in which they end.
unfoldable pub run_batch : List (Option String) → Option String
run_batch [] = none
run_batch (none ∷ ends) = run_batch ends
run_batch (some e ∷ ends) = some e

abbrev pub ask_tab : TabCall → ChromeClient → ChromeClient
ask_tab call chrome = record chrome { tabs = chrome.tabs ++ call ∷ [] }

-- `closePage`, whose errors are not looked at. The connection to the tab is closed as well.
abbrev pub close_page : String → ChromeClient → ChromeClient
close_page id chrome = ask_tab (close_target id) chrome

module _ (b : Browser) where
  unfoldable pub enable_client : ChromeClient → ChromeClient × Option String
  enable_client chrome =
      on_error (run_batch b.enabled) (λ e. (chrome, some e))
        (on_error b.new_manager (λ e. (record chrome { mgr = false }, some e))
          (record chrome { mgr = true }, none))

  unfoldable pub connect : ChromeClient → ChromeClient × Option String
  connect chrome =
      on_error b.devtool_get (λ e. (chrome, some e))
        (on_error b.dial (λ e. (record chrome { conn = false }, some e))
          (enable_client (record chrome { conn = true; c = true })))

  -- `Start`
  unfoldable pub start : ChromeClient → ChromeClient × Option String
  start chrome =
      on_error b.free_port (λ e. (chrome, some e))
        (on_error b.start_process (λ e. (chrome, some e))
          (connect (record chrome { up = b.stays_up })))

  unfoldable pub check_chrome_process : ChromeClient → ChromeClient × Option String
  check_chrome_process chrome = if chrome.up then (chrome, none) else start chrome

  unfoldable pub listen_to_page : String → ChromeClient → ChromeClient × Result String
  listen_to_page id chrome =
      on_error (run_batch b.page_enabled) (λ e. (chrome, err e))
        (on_error b.response_received (λ e. (chrome, err e)) (chrome, val id))

  unfoldable pub dial_page : String → ChromeClient → Outcome (ChromeClient × Result String)
  dial_page id chrome =
      if chrome.mgr
      then on_error b.dial_target (λ e. ok (chrome, err e)) (ok (listen_to_page id chrome))
      else panics

  unfoldable pub in_target : ChromeClient → Result String → Outcome (ChromeClient × Result String)
  in_target chrome (err e) = ok (chrome, err e)
  in_target chrome (val id) = dial_page id (ask_tab (create_target id) chrome)

  unfoldable pub create_page : ChromeClient → Outcome (ChromeClient × Result String)
  create_page chrome = if chrome.c then in_target chrome b.create_target else panics

  -- `newPage`, with the id of the tab. The error of `CheckChromeProcess` is not looked at.
  unfoldable pub new_page : ChromeClient → Outcome (ChromeClient × Result String)
  new_page chrome = create_page (check_chrome_process chrome).0
