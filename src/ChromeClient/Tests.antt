-- ===== src/ChromeClient/Tests.antt =====
-- A browser that shows one page in a tab named "t1", after a redirect to it.
use ideacrawler.Job.{Url}
use ideacrawler.Prelude.{
  ap, sym, inl, inr, val-injective, Option, Result, true, false, [], ◌∷◌, none, some, ok, panics,
  val, ◌≡◌, ◌↔◌, refl, ℕ, has_prefix, ◌<◌,
}
use ideacrawler.Prelude.Int.{pos}
use ideacrawler.Proto.{PageRequest, jscript}
use ideacrawler.Samples.{site, site_url, browser, moved, shown}
use ideacrawler.ChromeClient.{
  ChromeClient, ChromeDoer, Browser, ChromeResponse, create_target, close_target, new_chrome_client,
  new_chrome_doer, start, check_chrome_process, create_page, in_target, dial_page, listen_to_page,
  connect, enable_client, run_batch, new_page,
}
use ideacrawler.ChromeClient.Navigate.{
  await_response, first_response, at_entry, current_url, get_html, response_of, do_navigate,
  read_page, with_html, with_tab, read_at, visit, visit_in, navigate_page,
}
use ideacrawler.ChromeClient.Script.{do_request, script_at, response_only, scroll_loop, grows}
use ideacrawler.ChromeClient.Tabs.{Leaves, do_request-Leaves}
use ideacrawler.ChromeClient.Answers.{Gives}
use ideacrawler.ChromeClient.Encoding.{do_request-js_command}
use ideacrawler.ChromeClient.Returning.{do_request-Gives}
use ideacrawler.ChromeClient.Scroll.{scroll_loop-returns_iff, Ends, turn}
use ideacrawler.ChromeClient.Startup.{Lost, new_page-after_start, Broken}

abbrev start_chrome : ChromeClient
start_chrome = new_chrome_client "chrome"

abbrev cd : ChromeDoer
cd = new_chrome_doer start_chrome

abbrev home : ChromeResponse
home = record {
  status_code = pos 200;
  status = "OK";
  body = "<html>";
  request_url = site_url "/";
  content_type = some "text/html";
}

abbrev visited : ChromeClient
visited = record {
  cpath = "chrome";
  conn = true;
  c = true;
  mgr = true;
  dom_load_time = pos 5;
  up = true;
  tabs = create_target "t1" ∷ close_target "t1" ∷ [];
}

visit_home :
    do_request browser cd site 3 (site_url "/") start_chrome ≡ ok (visited, val (some home))
unfolding do_request do_navigate new_page check_chrome_process start connect enable_client run_batch
    create_page in_target dial_page listen_to_page visit_in visit navigate_page read_at
    first_response at_entry await_response current_url read_page with_html get_html response_of
    with_tab response_only has_prefix
visit_home = refl

do_request-Leaves_example : Leaves browser false start_chrome (visited, val (some home))
unfolding has_prefix
do_request-Leaves_example =
    do_request-Leaves browser site cd 3 start_chrome (site_url "/") visit_home

do_request-Gives_example :
    (after : ChromeClient) × (r : Result (Option ChromeResponse)) × (do_request browser cd site 3
        (site_url "/")
        start_chrome
      ≡ ok (after, r))
    × Gives browser site (site_url "/") r
unfolding has_prefix check_chrome_process start connect enable_client run_batch current_url
do_request-Gives_example =
    do_request-Gives browser site
      (λ h seen. (
        "/home",
        ap current_url (val-injective (sym seen)),
        (val moved ∷ [], val shown, [], refl, refl),
      ))
      cd 3 (site_url "/") start_chrome refl whole
  where
    whole : ¬ Lost browser (check_chrome_process browser start_chrome).0
    whole (inl gone) = cc
    whole (inr (missing, made)) = cc

abbrev js_request : PageRequest
js_request = record {
  job_id = none;
  reqtype = jscript;
  url = "/home";
  js = "go()";
  no_callback = false;
  meta_str = "m";
}

-- The unescapes leave everything as it is.
abbrev resent : Url
resent = record {
  scheme = "crawljs-jscript";
  host = "site";
  path = "/go()";
  raw_query = "/home";
  fragment = "";
}

do_request-js_command_example :
    do_request browser cd site 3 resent start_chrome
    ≡ script_at browser cd site 3 "crawljs-jscript" "/go()" (site_url "/home") start_chrome
unfolding has_prefix
do_request-js_command_example =
    do_request-js_command browser site (λ s. s) (λ s. s) (λ s. refl) (λ s. refl) cd 3
      "crawljs-jscript" js_request (site_url "/home") resent start_chrome refl refl
      (refl, refl, refl)

scroll_loop-returns_iff_example :
    (scroll_loop browser cd 0 5 ≡ ok none)
    ↔ ((k : ℕ) × (k < 5) × Ends browser cd k none × ((i : ℕ) → i < k → turn browser cd i ≡ grows))
scroll_loop-returns_iff_example = scroll_loop-returns_iff browser cd 5 none

-- A browser whose first page cannot be found.
abbrev no_page : Browser
no_page = record browser { devtool_get = some "no page" }

new_page-after_start_example :
    (new_page browser (start no_page start_chrome).0 ≡ panics)
    ↔ Broken browser (start no_page start_chrome)
new_page-after_start_example = new_page-after_start no_page "chrome" refl refl refl browser
