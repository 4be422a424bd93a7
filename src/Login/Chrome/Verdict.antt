-- ===== src/Login/Chrome/Verdict.antt =====
-- What the chrome login of job.go comes to.
use ideacrawler.Prelude.{
  Follows, bind-Follows, Bool-cases, if_true, if_false, panics, ◌>>=◌, String, Bool, false, Option,
  none, some, Outcome, ok, Result, val, err, ℕ, ◌≡◌, ◌≢◌, ◌⊎◌, inl, inr, refl, str_eq, str_eq_iff,
  on_error_cases, ◌>>=◌, arith,
}
use ideacrawler.Proto.{Kvp}
use ideacrawler.Job.{Job, Url, send_page_html}
use ideacrawler.Web.{Web}
use ideacrawler.Login.{doer, success_page, failed_page, login_failed_message}
use ideacrawler.Login.Chrome.{
  in_chrome, job_doer, set_up, login_js_url, compared_exactly, check_script_page, script_answered,
  page_answered, visit_login, log_in_chrome, Logged,
}
use ideacrawler.ChromeClient.{ChromeClient, ChromeDoer, Browser, ChromeResponse}
use ideacrawler.ChromeClient.Script.{do_request}

module _ (w : Web) (compile_error : String → Option String) (prefer_stop : Bool) (j : Job) where
  -- The comparison of the value found with the one expected, on the page sent and the result.
  abbrev pub Compared : Kvp → String → ChromeClient → Logged → Type 0
  Compared check got chrome r =
      ((got ≡ check.value)
        × (r ≡ (
            send_page_html prefer_stop false success_page j >>= λ j'. ok (j', chrome, val doer))))
      ⊎ ((got ≢ check.value)
          × (r ≡ (
              send_page_html prefer_stop false (failed_page check got) j >>= λ j'.
              ok (j', chrome, err (login_failed_message check got)))))

  -- The job's check of the body after the login.
  abbrev pub Checked : String → ChromeClient → Logged → Type 0
  Checked body chrome r =
      ((j.opts.login_success_check ≡ none) × (r ≡ ok (j, chrome, val doer)))
      ⊎ ((check : Kvp) × (j.opts.login_success_check ≡ some check)
          × (((e : String) × (compile_error check.key ≡ some e) × (r ≡ ok (j, chrome, err e)))
              ⊎ ((compile_error check.key ≡ none)
                  × (((w.xpath_value body check.key ≡ none) × (r ≡ panics))
                      ⊎ ((got : String) × (w.xpath_value body check.key ≡ some got)
                          × Compared check got chrome r)))))

  -- The answer to the script.
  abbrev pub Scripted : ChromeClient × Result (Option ChromeResponse) → Logged → Type 0
  Scripted (chrome, answer) r =
      (((e : String) × (answer ≡ err e)) × (r ≡ panics))
      ⊎ ((answer ≡ val none) × (r ≡ panics))
      ⊎ ((rsp : ChromeResponse) × (answer ≡ val (some rsp)) × Checked rsp.body chrome r)

  compared_exactly-Compared :
      (check : Kvp) (got : String) (chrome : ChromeClient)
      → Compared check got chrome
          (compared_exactly w compile_error prefer_stop check (some got) j chrome)
  unfolding compared_exactly
  compared_exactly-Compared check got chrome = elim (Bool-cases (str_eq got check.value)) [
    | inl same ↦ inl ((str_eq_iff got check.value).0 same, if_true _ _ _ same)
    | inr other ↦
        inr
          ((λ same. ground (arith, str_eq_iff got check.value, other, same)), if_false _ _ _ other)
  ]

  module _ (body : String) (chrome : ChromeClient) where
    value-Checked :
        (check : Kvp) (o : Option String)
        → j.opts.login_success_check ≡ some check
        → compile_error check.key ≡ none
        → w.xpath_value body check.key ≡ o
        → Checked body chrome (compared_exactly w compile_error prefer_stop check o j chrome)
    unfolding compared_exactly
    value-Checked check none asked good missing =
        inr (check, asked, inr (good, inl (missing, refl)))
    value-Checked check (some got) asked good found =
        inr (check, asked, inr (good, inr (got, found, compared_exactly-Compared check got chrome)))

    check_script_page-Checked :
        (o : Option Kvp)
        → j.opts.login_success_check ≡ o
        → Checked body chrome (check_script_page w compile_error prefer_stop o body j chrome)
    unfolding check_script_page
    check_script_page-Checked none asked = inl (asked, refl)
    check_script_page-Checked (some check) asked =
        on_error_cases (Checked body chrome) (compile_error check.key) _ _
          (λ e bad. inr (check, asked, inl (e, bad, refl)))
          (λ good. value-Checked check (w.xpath_value body check.key) asked good refl)

  script_answered-Scripted :
      (p : ChromeClient × Result (Option ChromeResponse))
      → Scripted p (script_answered w compile_error prefer_stop j p)
  unfolding script_answered
  script_answered-Scripted (chrome, err e) = inl ((e, refl), refl)
  script_answered-Scripted (chrome, val none) = inr (inl (refl, refl))
  script_answered-Scripted (chrome, val (some rsp)) =
      inr
        (inr (rsp, refl, check_script_page-Checked rsp.body chrome j.opts.login_success_check refl))

module _ (w : Web) (compile_error : String → Option String) (prefer_stop : Bool)
    (path_escape query_escape : String → String) (page_browser script_browser : Browser) (fuel : ℕ)
    (j : Job) (cd : ChromeDoer) where
  abbrev pub ask_page : Url → ChromeClient → Outcome (ChromeClient × Result (Option ChromeResponse))
  ask_page url chrome = do_request page_browser cd w fuel url chrome

  abbrev pub ask_script : ChromeClient → Outcome (ChromeClient × Result (Option ChromeResponse))
  ask_script chrome =
      do_request script_browser cd w fuel (login_js_url path_escape query_escape j.opts) chrome

  -- The answer to the login page.
  abbrev pub Answered : ChromeClient × Result (Option ChromeResponse) → Logged → Type 0
  Answered (chrome, page) r =
      ((e : String) × (page ≡ err e) × (r ≡ ok (j, chrome, err e)))
      ⊎ ((page ≡ val none) × (r ≡ panics))
      ⊎ ((shown : ChromeResponse) × (page ≡ val (some shown))
          × Follows (Scripted w compile_error prefer_stop j) (ask_script chrome) r)

  abbrev pub Decides : ChromeClient → Logged → Type 0
  Decides chrome r =
      (((e : String) × (w.parse_url j.opts.login_url ≡ err e)) × (r ≡ panics))
      ⊎ ((url : Url) × (w.parse_url j.opts.login_url ≡ val url)
          × Follows Answered (ask_page url chrome) r)

  page_answered-Answered :
      (page : ChromeClient × Result (Option ChromeResponse))
      → Answered page (
          page_answered w compile_error prefer_stop path_escape query_escape page_browser
            script_browser fuel j cd page)
  unfolding page_answered
  page_answered-Answered (chrome, err e) = inl (e, refl, refl)
  page_answered-Answered (chrome, val none) = inr (inl (refl, refl))
  page_answered-Answered (chrome, val (some shown)) = inr (
      inr (
        shown,
        refl,
        bind-Follows (Scripted w compile_error prefer_stop j) (ask_script chrome) _
            (script_answered-Scripted w compile_error prefer_stop j),
      ))

  visit_login-Decides :
      (chrome : ChromeClient) (u : Result Url)
      → w.parse_url j.opts.login_url ≡ u
      → Decides chrome (
          visit_login w compile_error prefer_stop path_escape query_escape page_browser
            script_browser fuel j cd chrome u)
  unfolding visit_login
  visit_login-Decides chrome (err e) parsed = inl ((e, parsed), refl)
  visit_login-Decides chrome (val url) parsed =
      inr (url, parsed, bind-Follows Answered (ask_page url chrome) _ page_answered-Answered)

-- A chrome login opens the login page of the job, and an error of that is its error, with nothing
-- sent to the client. Then the login script is run, and without a check the login succeeds. With
-- one, the value of the check's xpath in the answer is compared, case included: if it is the one
-- expected, a success page is sent and the client given; if not, a failure page is sent and its
-- message is the error. An xpath that does not compile is an error. It panics if the login URL does
-- not parse, if there is no response to the page or the script, or the check gives no node set, and
-- it waits or panics where the requests and the sending do.
pub log_in_chrome-Decides :
    (w : Web) (compile_error : String → Option String) (prefer_stop : Bool)
    (path_escape query_escape : String → String) (browser page_browser script_browser : Browser)
    (fuel : ℕ) (j : Job) (ccl : Option ChromeClient)
    → Decides w compile_error prefer_stop path_escape query_escape page_browser script_browser fuel
        (in_chrome j)
        (job_doer j.opts (set_up browser j ccl))
        (set_up browser j ccl)
        (log_in_chrome w compile_error prefer_stop path_escape query_escape page_browser
          script_browser fuel browser j ccl)
unfolding log_in_chrome
log_in_chrome-Decides w compile_error prefer_stop path_escape query_escape browser page_browser
      script_browser fuel j ccl =
    visit_login-Decides w compile_error prefer_stop path_escape query_escape page_browser
      script_browser fuel (in_chrome j) (job_doer j.opts (set_up browser j ccl))
      (set_up browser j ccl) (w.parse_url j.opts.login_url) refl
