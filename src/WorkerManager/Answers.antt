-- ===== src/WorkerManager/Answers.antt =====
-- The jobs that workermanager.go starts on a worker, under the handlers of job.go: `Do` waits for one
-- page with the id of its request, and this is where the page comes from.
use ideacrawler.Prelude.{
  String, Bool, true, false, [], All, Option, none, some, Outcome, ok, Result, val, err, ◌≡◌, refl,
  sym, ap, ◌∙◌, inl, inr, arith, Bool-cases, subst, if_false,
}
use ideacrawler.Prelude.Int.{pos, eqb_ℤ, int32}
use ideacrawler.Prelude.Chan.{Chan}
use ideacrawler.Proto.{DomainOpt, PageHtml}
use ideacrawler.Job.{Job, CrawlCommand, done, send_page_html}
use ideacrawler.Web.{Web, Response}
use ideacrawler.Fetch.{
  callback_page, xpath_filter, follows_links, still_logged_in, ship_page, follow_links, after_login,
  handle_body, after_read, fetch_http_get_handler, fetch_error_handler, is_error_status,
  success_page, failure_page, error_page, no_id,
}
use ideacrawler.GoClient.Spec.{new_job_spec, no_follow, impolite, page_chan, max_idle_time, chrome}
use ideacrawler.WorkerManager.{worker_spec}
use mathlib.Core.List.{Memᴰ}
use ideacrawler.RunJob.Setup
use ideacrawler.RunJob.Setup.{Route, make_mux}

-- What of a worker's job matters here.
record Plain (o : DomainOpt) : Type 0 where
  no_follow : o.no_follow ≡ true
  no_login : o.login ≡ false
  no_regexp : o.callback_url_regexp ≡ ""
  no_match : o.callback_xpath_match ≡ []
  no_xpath : o.callback_xpath_regexp ≡ []

worker_spec-Plain :
    (use_chrome : Bool) (binary : String) (pages : Option (Chan PageHtml))
    → Plain (worker_spec use_chrome binary pages).dopt
unfolding new_job_spec no_follow impolite page_chan max_idle_time chrome
worker_spec-Plain use_chrome binary pages = record {
  no_follow = refl;
  no_login = refl;
  no_regexp = refl;
  no_match = refl;
  no_xpath = refl;
}

-- The handler of GET responses, registered for HTML.
abbrev pub html_route : Route
html_route = record {
  method = "GET";
  content_type = some "text/html";
  handler = Setup.fetch_http_get_handler;
}

worker_spec-html :
    (use_chrome : Bool) (binary : String) (pages : Option (Chan PageHtml)) (j : Job)
    → j.opts ≡ (worker_spec use_chrome binary pages).dopt
    → j.opts.mimetype ≡ "text/html"
unfolding new_job_spec no_follow impolite page_chan max_idle_time chrome
worker_spec-html use_chrome binary pages j same = ap (λ o. o.mimetype) same

only_html :
    (j : Job)
    → j.opts.mimetype ≡ "text/html"
    → All (λ route. route.content_type ≡ some "text/html") (make_mux j.opts).responses
only_html j html = rw html (refl, (refl, tt))

module _ (w : Web) (prefer_stop : Bool) (cmd : CrawlCommand) (res : Response) where
  -- The handler comes to sending one page that has the meta string of the command.
  abbrev pub Answers : Job → Outcome Job → Type 0
  Answers j r =
      (page : PageHtml) × (page.meta_str ≡ cmd.meta_str)
      × (r ≡ send_page_html prefer_stop true page j)

  wants_page : (body : String) (j : Job) → Plain j.opts → callback_page w j cmd body ≡ ok true
  unfolding callback_page xpath_filter
  wants_page body j p = rw (p.no_match, p.no_xpath, p.no_regexp) (ground arith)

  follows_nothing : (j : Job) → Plain j.opts → follows_links w j cmd ≡ false
  unfolding follows_links
  follows_nothing j p = rw p.no_follow refl

  checks_no_login : (body : String) (j : Job) → Plain j.opts → still_logged_in w j body ≡ ok none
  unfolding still_logged_in
  checks_no_login body j p = rw p.no_login refl

  ships :
      (body : String) (j : Job)
      → Plain j.opts
      → Answers j (handle_body w prefer_stop cmd res body j)
  unfolding handle_body after_login follow_links ship_page
  ships body j p = (
    success_page w j cmd res body,
    refl,
    rw (checks_no_login body j p, follows_nothing j p, wants_page body j p) refl,
  )

  reads :
      (r : Result String) (j : Job)
      → Plain j.opts
      → Answers j (after_read w prefer_stop cmd res j r)
  unfolding after_read
  reads (val body) j p = ships body j p
  reads (err e) j p = (_, refl, refl)

  responds :
      (j : Job)
      → Plain j.opts
      → done j ≡ false
      → cmd.no_callback ≡ false
      → eqb_ℤ cmd.url_depth (pos 0) ≡ true
      → Answers j (fetch_http_get_handler w prefer_stop cmd res j)
  unfolding fetch_http_get_handler
  responds j p live callback depth = elim (Bool-cases (is_error_status res.status_code)) [
    | inl bad ↦ (
      failure_page no_id res.status (w.url_string res.request_url) (int32 res.status_code)
          cmd.meta_str cmd.url_depth,
      refl,
      rw (live, callback, bad, depth) refl,
    )
    | inr fine ↦
        let (page, meta, same) = reads res.body j p in
        (
          page,
          meta,
          if_false (done j) _ _ live
              ∙ if_false cmd.no_callback _ _ callback
              ∙ if_false (is_error_status res.status_code) _ _ fine
              ∙ same,
        )
  ]

  -- A worker's job that is not done answers its page requests where the response is HTML or there is
  -- none: for GET responses of the type `text/html` the job has its handler registered, for others it
  -- has none. The handler comes to exactly one send of one page, and the page has the meta string of the command: whatever the status, the body and the read
  -- come to, for a command at depth 0 that asks for a callback, as page requests make them. The handler
  -- of fetch errors does the same.
  pub worker_job-Answers :
      (use_chrome : Bool) (binary : String) (pages : Option (Chan PageHtml)) (j : Job)
      (error : String)
      → j.opts ≡ (worker_spec use_chrome binary pages).dopt
      → done j ≡ false
      → cmd.no_callback ≡ false
      → cmd.url_depth ≡ pos 0
      → Memᴰ html_route (make_mux j.opts).responses
        × All (λ route. route.content_type ≡ some "text/html") (make_mux j.opts).responses
        × Answers j (fetch_http_get_handler w prefer_stop cmd res j)
        × Answers j (fetch_error_handler w prefer_stop cmd error j)
  unfolding fetch_error_handler
  worker_job-Answers use_chrome binary pages j error same live callback depth = (
    rw (worker_spec-html use_chrome binary pages j same) (Memᴰ.head refl),
    only_html j (worker_spec-html use_chrome binary pages j same),
    responds j (subst Plain (sym same) (worker_spec-Plain use_chrome binary pages)) live callback
        (ap (λ d. eqb_ℤ d (pos 0)) depth),
    (error_page w cmd error, refl, rw live refl),
  )
