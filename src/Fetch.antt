-- ===== src/Fetch.antt =====
-- The response handlers of job.go: `fetchErrorHandler`, `fetchHTTPGetHandler` and
-- `fetchHTTPHeadHandler`. Logging and the copies of login pages on disk are left out.
pub mod Links
pub mod Callback
mod Tests
pub mod Shipping
pub mod Depth
pub mod Queueing
use ideacrawler.Prelude.{
  String, Bool, true, false, not, ◌&&◌, ◌||◌, ◌<>◌, Option, none, some, List, [], ◌∷◌, ◌++◌,
  Outcome, ok, panics, ◌>>=◌, Result, val, err, if◌then◌else◌, ltb, str_eq, has_prefix, is_nil,
}
use ideacrawler.Prelude.Int.{ℤ, pos, ltb_ℤ, eqb_ℤ, int32, inc32}
use ideacrawler.StatusCodes
use ideacrawler.Proto.{JobId, Kvp, PageHtml}
use ideacrawler.Job.{Job, Url, CrawlCommand, Regexp, done, request_cancel, send_page_html}
use ideacrawler.Web.{Web, Response}
use Links.{Page, enqueue_links, misses}

abbrev str_empty : String → Bool
str_empty s = str_eq s ""

-- A page that reports a failure. `content` is empty in each of them.
abbrev pub failure_page : Option JobId → String → String → ℤ → String → ℤ → PageHtml
failure_page id error url code meta_str url_depth = record {
  success = false;
  error = error;
  job_id = id;
  url = url;
  httpstatuscode = code;
  content = "";
  meta_str = meta_str;
  url_depth = url_depth;
  anchor_text = "";
}

-- `&pb.JobID{}`
abbrev pub no_id : Option JobId
no_id = some (record { id = "" })

abbrev pub hits : Option Regexp → String → Bool
hits none s = false
hits (some re) s = re s

-- The message of a failed login check, `none` if there is no check or it succeeds.
abbrev pub logged_out_message : Kvp → String → String
logged_out_message check got =
    "Not logged in anymore: In xpath '" <> check.key <> "', expected '" <> check.value
    <> "', but got '" <> got <> "'. Not continuing."

-- `res.StatusCode > 399 && res.StatusCode < 600`
abbrev pub is_error_status : ℤ → Bool
is_error_status code = ltb_ℤ (pos 399) code && ltb_ℤ code (pos 600)

-- The command that a HEAD response is followed by: depth and anchor text are left at zero.
abbrev pub get_command : CrawlCommand → CrawlCommand
get_command cmd = record {
  method = "GET";
  url = cmd.url;
  no_callback = false;
  meta_str = cmd.meta_str;
  url_depth = pos 0;
  anchor_text = "";
}

-- The arguments of `enqueueLinks`, one level below the page.
abbrev pub page_of : CrawlCommand → Response → Page
page_of cmd res = record {
  request_url = res.request_url;
  meta_str = cmd.meta_str;
  url_depth = inc32 cmd.url_depth;
}

module _ (w : Web) where
  -- The callback checks, in the order of the handler. A xpath that does not evaluate panics.
  unfoldable pub xpaths_match : String → List Kvp → Outcome Bool
  xpaths_match body [] = ok true
  xpaths_match body (xm ∷ rest) =
      let others = xpaths_match body rest in
      elim (w.xpath_value body xm.key) [
        | none ↦ panics
        | some v ↦ if str_eq v xm.value then others else ok false
      ]

  -- `callbackPage == false && len(xms) > 0`, then the loop with `passthru`.
  unfoldable pub xpath_filter : String → List Kvp → Bool → Outcome Bool
  xpath_filter body xms callback_page =
      if not callback_page && not (is_nil xms) then xpaths_match body xms else ok callback_page

  unfoldable pub callback_page : Job → CrawlCommand → String → Outcome Bool
  callback_page j cmd body =
      let opts = j.opts in
      let seed = opts.callback_seed_url && eqb_ℤ cmd.url_depth (pos 0) in
      let unfiltered =
        str_empty opts.callback_url_regexp
        && (is_nil opts.callback_xpath_match && is_nil opts.callback_xpath_regexp) in
      let by_text =
        seed
        || (unfiltered
            || (hits j.callback_url_regexp (w.url_string cmd.url)
                || hits j.callback_anchor_text_regexp cmd.anchor_text)) in
      (xpath_filter body opts.callback_xpath_match by_text >>= λ passed.
      xpath_filter body opts.callback_xpath_regexp passed)

  unfoldable pub shipping_url : Url → String
  shipping_url u =
      if has_prefix u.scheme "crawljs"
      then elim (w.query_unescape u.raw_query) [ err error ↦ w.url_string u | val s ↦ s ]
      else w.url_string u

  abbrev pub success_page : Job → CrawlCommand → Response → String → PageHtml
  success_page j cmd res body = record {
    success = true;
    error = "";
    job_id = some j.id;
    url = shipping_url cmd.url;
    httpstatuscode = int32 res.status_code;
    content = body;
    meta_str = cmd.meta_str;
    url_depth = cmd.url_depth;
    anchor_text = cmd.anchor_text;
  }

  -- The condition under which the links of a page are followed.
  unfoldable pub follows_links : Job → CrawlCommand → Bool
  follows_links j cmd =
      not j.opts.no_follow
      && (not (misses j.follow_url_regexp (w.url_string cmd.url))
          && (ltb_ℤ j.opts.depth (pos 0) || ltb_ℤ cmd.url_depth j.opts.depth))

  -- `fmt.Sprintf("ERR - %s %s - %s", method, url, err)`
  abbrev pub err_message : CrawlCommand → String → String
  err_message cmd error = "ERR - " <> cmd.method <> " " <> w.url_string cmd.url <> " - " <> error

  login_value : Kvp → Option String → Outcome (Option String)
  login_value check none = panics
  login_value check (some got) =
      if str_eq (w.to_lower got) (w.to_lower check.value)
      then ok none
      else ok (some (logged_out_message check got))

  check_login : Option Kvp → String → Outcome (Option String)
  unfolding login_value
  check_login none body = ok none
  check_login (some check) body = login_value check (w.xpath_value body check.key)

  unfoldable pub still_logged_in : Job → String → Outcome (Option String)
  unfolding check_login
  still_logged_in j body =
      if j.opts.login && j.opts.check_login_after_each_page
      then check_login j.opts.login_success_check body
      else ok none

  -- `ctx.Q.Send(cmd)`, an error being logged only.
  unfoldable pub take_command : Job → CrawlCommand → Job
  take_command j cmd = elim (w.queue_send j.queue cmd) [
    | none ↦ record j { queue = j.queue ++ cmd ∷ [] }
    | some error ↦ j
  ]

  unfoldable pub fetch_http_head_handler : CrawlCommand → Job → Job
  unfolding take_command
  fetch_http_head_handler cmd j = if done j then j else take_command j (get_command cmd)

  -- The page that reports a failed fetch.
  abbrev pub error_page : CrawlCommand → String → PageHtml
  error_page cmd error =
      failure_page no_id error (w.url_string cmd.url) StatusCodes.fetchbot_error cmd.meta_str
        cmd.url_depth

module _ (w : Web) (prefer_stop : Bool) where
  unfoldable pub fetch_error_handler : CrawlCommand → String → Job → Outcome Job
  fetch_error_handler cmd error j =
      if done j then ok j else send_page_html prefer_stop true (error_page w cmd error) j

  abbrev pub send_page : PageHtml → Job → Outcome Job
  send_page = send_page_html prefer_stop true

  -- From `var callbackPage` to the end of the handler.
  unfoldable pub ship_page : CrawlCommand → Response → String → Job → Outcome Job
  ship_page cmd res body j =
      (callback_page w j cmd body >>= λ wanted.
      if wanted then send_page (success_page w j cmd res body) j else ok j)

  unfoldable pub follow_links : CrawlCommand → Response → String → Job → Outcome Job
  follow_links cmd res body j =
      if follows_links w j cmd
      then elim (w.find_links body) [
        | err error ↦
            send_page
              (failure_page no_id (err_message w cmd error <> "\n") ""
                StatusCodes.follow_parse_error "" cmd.url_depth)
              j
        | val links ↦
            (enqueue_links w prefer_stop (page_of cmd res) links j >>= λ j'.
            ship_page cmd res body j')
      ]
      else ship_page cmd res body j

  -- `lost` is the message of a failed login check.
  unfoldable pub after_login : CrawlCommand → Response → String → Job → Option String → Outcome Job
  after_login cmd res body j none = follow_links cmd res body j
  after_login cmd res body j (some message) =
      (send_page (failure_page none message "" StatusCodes.nolonger_logged_in "" cmd.url_depth) j
        >>= request_cancel)

  unfoldable pub handle_body : CrawlCommand → Response → String → Job → Outcome Job
  handle_body cmd res body j = (still_logged_in w j body >>= after_login cmd res body j)

  -- The response's body is read, or the read fails.
  unfoldable pub after_read : CrawlCommand → Response → Job → Result String → Outcome Job
  after_read cmd res j (val body) = handle_body cmd res body j
  after_read cmd res j (err error) =
      send_page
        (failure_page no_id (err_message w cmd error) (w.url_string res.request_url)
          StatusCodes.response_error cmd.meta_str cmd.url_depth)
        j

  unfoldable pub fetch_http_get_handler : CrawlCommand → Response → Job → Outcome Job
  fetch_http_get_handler cmd res j =
      if done j
      then ok j
      else if cmd.no_callback
      then ok j
      else if is_error_status res.status_code
      then if eqb_ℤ cmd.url_depth (pos 0)
        then send_page
            (failure_page no_id res.status (w.url_string res.request_url) (int32 res.status_code)
              cmd.meta_str cmd.url_depth)
            j
        else ok j
      else after_read cmd res j res.body
