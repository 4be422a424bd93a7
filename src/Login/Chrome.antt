-- ===== src/Login/Chrome.antt =====
-- `setupChromeClient` and the two clients of job.go that use chrome. The copies of the pages on disk
-- are left out. The browser's answers are given for the start of the process and for each call.
pub mod Verdict
mod Tests
use ideacrawler.Prelude.{
  String, Bool, true, false, ◌∷◌, ◌<>◌, Option, none, some, Outcome, ok, panics, ◌>>=◌, ℕ, Result,
  val, err, str_eq, if◌then◌else◌, on_error,
}
use ideacrawler.Prelude.Int.{ℤ, pos, ltb_ℤ}
use ideacrawler.Proto.{DomainOpt, Kvp}
use ideacrawler.Job.{Job, Url, send_page_html}
use ideacrawler.Web.{Web}
use ideacrawler.Login.{Client, doer, success_page, failed_page, login_failed_message}
use ideacrawler.ChromeClient.{
  ChromeClient, ChromeDoer, Browser, ChromeResponse, new_chrome_client, new_chrome_doer,
  set_dom_load_time, check_chrome_process,
}
use ideacrawler.ChromeClient.Script.{do_request}

abbrev pub default_binary : String
default_binary = "/usr/lib64/chromium-browser/headless_shell"

-- Always impolite in chrome mode.
abbrev pub chrome_opts : DomainOpt → DomainOpt
chrome_opts opts = record opts {
  impolite = true;
  chrome_binary = if str_eq opts.chrome_binary "" then default_binary else opts.chrome_binary;
}

-- On `s.ccl`; the error of `CheckChromeProcess` is not looked at.
unfoldable pub setup_chrome_client : Browser → String → Option ChromeClient → ChromeClient
setup_chrome_client b binary (some chrome) = chrome
setup_chrome_client b binary none = (check_chrome_process b (new_chrome_client binary)).0

-- `j.cd`
abbrev pub job_doer : DomainOpt → ChromeClient → ChromeDoer
job_doer opts chrome =
    if ltb_ℤ (pos 0) opts.dom_load_time
    then set_dom_load_time opts.dom_load_time (new_chrome_doer chrome)
    else new_chrome_doer chrome

abbrev pub in_chrome : Job → Job
in_chrome j = record j { opts = chrome_opts j.opts }

-- What both begin with.
abbrev pub set_up : Browser → Job → Option ChromeClient → ChromeClient
set_up b j ccl = setup_chrome_client b (in_chrome j).opts.chrome_binary ccl

-- `makeHTTPClientRawChrome`: the job, `s.ccl`, `j.cd` and the client.
unfoldable pub raw_chrome :
    Browser → Job → Option ChromeClient → Job × ChromeClient × ChromeDoer × Result Client
raw_chrome b j ccl =
    let chrome = set_up b j ccl in (in_chrome j, chrome, job_doer j.opts chrome, val doer)

-- The request to run the login script on the login page.
abbrev pub login_js_url : (String → String) → (String → String) → DomainOpt → Url
login_js_url path_escape query_escape opts = record {
  scheme = "crawljs-jscript";
  host = opts.login_url;
  path = path_escape opts.login_js;
  raw_query = query_escape opts.login_url;
  fragment = "";
}

abbrev pub Logged : Type 0
Logged = Outcome (Job × ChromeClient × Result Client)

module _ (w : Web) (compile_error : String → Option String) (prefer_stop : Bool) where
  -- Here the comparison is exact, and a failed check returns its message as an error.
  unfoldable pub compared_exactly : Kvp → Option String → Job → ChromeClient → Logged
  compared_exactly check none j chrome = panics
  compared_exactly check (some got) j chrome =
      if str_eq got check.value
      then (send_page_html prefer_stop false success_page j >>= λ j'. ok (j', chrome, val doer))
      else (send_page_html prefer_stop false (failed_page check got) j >>= λ j'.
          ok (j', chrome, err (login_failed_message check got)))

  unfoldable pub check_script_page : Option Kvp → String → Job → ChromeClient → Logged
  check_script_page none body j chrome = ok (j, chrome, val doer)
  check_script_page (some check) body j chrome =
      on_error (compile_error check.key) (λ e. ok (j, chrome, err e))
        (compared_exactly check (w.xpath_value body check.key) j chrome)

  -- The response to the login script. Its error is not looked at: there is no response then.
  unfoldable pub script_answered : Job → ChromeClient × Result (Option ChromeResponse) → Logged
  script_answered j (chrome, err e) = panics
  script_answered j (chrome, val none) = panics
  script_answered j (chrome, val (some rsp)) =
      check_script_page j.opts.login_success_check rsp.body j chrome

  module _ (path_escape query_escape : String → String) (page_browser script_browser : Browser)
      (fuel : ℕ) where
    unfoldable pub page_answered :
        Job → ChromeDoer → ChromeClient × Result (Option ChromeResponse) → Logged
    page_answered j cd (chrome, err e) = ok (j, chrome, err e)
    page_answered j cd (chrome, val none) = panics
    page_answered j cd (chrome, val (some rsp)) =
        do_request script_browser cd w fuel (login_js_url path_escape query_escape j.opts) chrome
        >>= script_answered j

    -- The error of `url.Parse` is not looked at: the URL is nil then, and `Do` reads its scheme.
    unfoldable pub visit_login : Job → ChromeDoer → ChromeClient → Result Url → Logged
    visit_login j cd chrome (err e) = panics
    visit_login j cd chrome (val url) =
        do_request page_browser cd w fuel url chrome >>= page_answered j cd

    -- `makeHTTPClientLoginChrome`
    unfoldable pub log_in_chrome : Browser → Job → Option ChromeClient → Logged
    log_in_chrome b j ccl =
        let chrome = set_up b j ccl in
        visit_login (in_chrome j) (job_doer j.opts chrome) chrome (w.parse_url j.opts.login_url)
