-- ===== src/Login/Chrome/Tests.antt =====
-- The theorem on the chrome login at a site where the login succeeds.
use ideacrawler.Prelude.{
  [], ◌∷◌, none, some, true, false, ok, val, ◌≡◌, refl, has_prefix, has_suffix,
}
use ideacrawler.Prelude.Int.{pos}
use ideacrawler.Job.{Job, send_page_html, set_send_chan}
use ideacrawler.Samples.{site, start_job, browser}
use ideacrawler.Login.{doer, success_page}
use ideacrawler.Login.Chrome.{
  log_in_chrome, default_binary, in_chrome, job_doer, set_up, setup_chrome_client, visit_login,
  page_answered, script_answered, check_script_page, compared_exactly,
}
use ideacrawler.Login.Chrome.Verdict.{Decides, log_in_chrome-Decides}
use ideacrawler.ChromeClient.{
  ChromeClient, create_target, close_target, start, check_chrome_process, create_page, in_target,
  dial_page, listen_to_page, connect, enable_client, run_batch, new_page,
}
use ideacrawler.ChromeClient.Navigate.{
  await_response, first_response, at_entry, current_url, get_html, response_of, do_navigate,
  read_page, with_html, with_tab, read_at, visit, visit_in, navigate_page,
}
use ideacrawler.ChromeClient.Script.{
  after_script, with_history, at_current, at_url, do_request, do_js, script_at, with_command,
  at_target, in_page, response_only, query_text, script_page, run_script,
}

-- Every value on a page of `Samples` is "Home".
abbrev login_job : Job
login_job = record start_job {
  opts = record (start_job.opts) {
    chrome = true;
    login = true;
    login_url = "/home";
    login_js = "go()";
    login_success_check = some (record { key = "//h1"; value = "Home" });
  };
}

-- The tabs that the login has left: the one of the script is not closed.
abbrev left : ChromeClient
left = record {
  cpath = default_binary;
  conn = true;
  c = true;
  mgr = true;
  dom_load_time = pos 5;
  up = true;
  tabs = create_target "t1" ∷ close_target "t1" ∷ create_target "t1" ∷ [];
}

abbrev told : Job
told =
    set_send_chan (in_chrome login_job)
      (some (record { cap = 1000; items = success_page ∷ []; closed = false }))

logs_in :
    log_in_chrome site (λ s. none) true (λ s. s) (λ s. s) browser browser 3 browser login_job none
    ≡ ok (told, left, val doer)
unfolding log_in_chrome setup_chrome_client visit_login page_answered script_answered
    check_script_page compared_exactly send_page_html do_request do_js script_at with_command
    at_target in_page response_only query_text script_page run_script do_navigate new_page
    check_chrome_process start connect enable_client run_batch create_page in_target dial_page
    listen_to_page visit_in visit navigate_page read_at first_response at_entry await_response
    current_url read_page with_html get_html response_of with_tab has_prefix has_suffix after_script
    with_history at_current at_url
logs_in = refl

log_in_chrome-Decides_example :
    Decides site
      (λ s. none)
      true
      (λ s. s)
      (λ s. s)
      browser
      browser
      3
      (in_chrome login_job)
      (job_doer login_job.opts (set_up browser login_job none))
      (set_up browser login_job none)
      (log_in_chrome site
        (λ s. none)
        true
        (λ s. s)
        (λ s. s)
        browser
        browser
        3
        browser
        login_job
        none)
log_in_chrome-Decides_example =
    log_in_chrome-Decides site (λ s. none) true (λ s. s) (λ s. s) browser browser browser 3
      login_job none
