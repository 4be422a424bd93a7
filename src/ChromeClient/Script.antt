-- ===== src/ChromeClient/Script.antt =====
-- `doJS` and `Do` of chromeclient/chromeclient.go. The loop that scrolls to the end of a page runs on
-- fuel: out of it, it counts as one that runs for ever (Scroll says how much is enough).
use ideacrawler.Prelude.{
  on_error, String, ◌<>◌, true, false, Option, none, some, Outcome, ok, blocks, panics, ◌>>=◌,
  Result, val, err, ℕ, zero, suc, ◌*◌, ◌+◌, str_eq, has_prefix, has_suffix, if◌then◌else◌,
}
use ideacrawler.Prelude.Int.{ℤ, pos, negsuc, eqb_ℤ}
use ideacrawler.Job.{Url}
use ideacrawler.Web.{Web}
use ideacrawler.ChromeClient.{ChromeClient, ChromeDoer, Browser, History, ChromeResponse}
use ideacrawler.ChromeClient.Navigate.{current_url, get_html, do_navigate}

abbrev pub scroll_to_end : String
scroll_to_end = "window.scrollTo(0, document.body.scrollHeight)"

abbrev milliseconds : ℤ → ℤ
milliseconds (pos n) = pos (1000 * n)
milliseconds (negsuc n) = negsuc (1000 * n + 999)

error_of {ℓ} : {A : Type ℓ} → Result A → Option String
error_of (err e) = some e
error_of (val a) = none

module _ (b : Browser) (cd : ChromeDoer) where
  -- The promise that scrolls once and gives the heights before and after.
  abbrev pub infinite_scroll : String
  infinite_scroll =
      "new Promise((resolve, reject) => {\n                                   prevHeight=document.body.scrollHeight;\n                                   window.scrollTo(0, document.body.scrollHeight);\n                                   setTimeout(() => {\n                                       newHeight=document.body.scrollHeight;\n                                       resolve({\"O\": prevHeight, \"N\": newHeight});\n                                   }, "
      <> b.itoa (milliseconds cd.dom_load_time)
      <> ");\n                               });\n"

  -- One turn: an error, or whether the heights are equal.
  pub data Turn : Type 0 where
    fails : String → Turn
    settles grows : Turn

  of_heights : Result (ℤ × ℤ) → Turn
  of_heights (err e) = fails e
  of_heights (val (o, n)) = if eqb_ℤ o n then settles else grows

  unfoldable pub scroll_turn : Result String → Turn
  unfolding of_heights
  scroll_turn (err e) = fails e
  scroll_turn (val json) = of_heights (b.unmarshal_heights json)

  unfoldable pub scroll_loop : ℕ → ℕ → Outcome (Option String)
  scroll_loop n zero = blocks
  scroll_loop n (suc fuel) =
      let rest = scroll_loop (suc n) fuel in
      elim (scroll_turn (b.evaluate n infinite_scroll)) [
        | fails e ↦ ok (some e)
        | settles ↦ ok none
        | grows ↦ rest
      ]

  builtin_js : ℕ → String → Outcome (Option String)
  builtin_js fuel jscommand =
      if str_eq jscommand "/scrollToEnd"
      then ok (error_of (b.evaluate 0 scroll_to_end))
      else if str_eq jscommand "/infiniteScrollToEnd"
      then scroll_loop 0 fuel
      else ok none

  -- The scripts, by the suffix of the scheme: the error of the run, if any.
  unfoldable pub run_script : ℕ → String → String → Outcome (Option String)
  unfolding builtin_js error_of
  run_script fuel scheme jscommand =
      if has_suffix scheme "builtinjs"
      then builtin_js fuel jscommand
      else if has_suffix scheme "jscript"
      then ok (error_of (b.evaluate 0 jscommand))
      else ok none

  module _ (w : Web) where
    abbrev pub script_response : Url → String → ChromeResponse
    script_response url html = record {
      status_code = pos 900;
      status = "";
      body = html;
      request_url = url;
      content_type = some "text/html";
    }

    unfoldable pub at_url : String → Result Url → Outcome (Result (Option ChromeResponse))
    at_url html (err e) = ok (err e)
    at_url html (val url) = ok (val (some (script_response url html)))

    unfoldable pub at_current : String → Option String → Outcome (Result (Option ChromeResponse))
    at_current html none = panics
    at_current html (some current) = at_url html (w.parse_url current)

    -- The error of `GetNavigationHistory` is not looked at: the history is nil then.
    unfoldable pub with_history : String → Result History → Outcome (Result (Option ChromeResponse))
    with_history html (err e) = panics
    with_history html (val h) = at_current html (current_url h)

    unfoldable pub after_script : Result String → Outcome (Result (Option ChromeResponse))
    after_script (err e) = ok (err e)
    after_script (val html) = with_history html b.scripted.history

    -- From the script on, in the tab of the page.
    unfoldable pub script_page : ℕ → String → String → Outcome (Result (Option ChromeResponse))
    script_page fuel scheme jscommand = run_script fuel scheme jscommand >>= λ failed.
        on_error failed (λ e. ok (err e)) (after_script (get_html b.scripted))

    -- A response of another status is dropped, and the error returned with it is nil.
    unfoldable pub in_page :
        ℕ
        → String
        → String
        → ChromeClient × Result (ChromeResponse × String)
        → Outcome (ChromeClient × Result (Option ChromeResponse))
    in_page fuel scheme jscommand (chrome, err e) = ok (chrome, err e)
    in_page fuel scheme jscommand (chrome, val (rsp, id)) =
        if eqb_ℤ rsp.status_code (pos 200)
        then (script_page fuel scheme jscommand >>= λ r. ok (chrome, r))
        else ok (chrome, val none)

    -- `doJS` from the navigation on.
    unfoldable pub script_at :
        ℕ
        → String
        → String
        → Url
        → ChromeClient
        → Outcome (ChromeClient × Result (Option ChromeResponse))
    script_at fuel scheme jscommand target chrome =
        do_navigate b w true target chrome >>= in_page fuel scheme jscommand

    -- An error of `QueryUnescape` leaves the empty string and is not looked at.
    unfoldable pub query_text : Result String → String
    query_text (err e) = ""
    query_text (val target) = target

    unfoldable pub at_target :
        ℕ
        → String
        → String
        → ChromeClient
        → Result Url
        → Outcome (ChromeClient × Result (Option ChromeResponse))
    at_target fuel scheme jscommand chrome (err e) = ok (chrome, err e)
    at_target fuel scheme jscommand chrome (val target) =
        script_at fuel scheme jscommand target chrome

    unfoldable pub with_command :
        ℕ
        → Url
        → ChromeClient
        → Result String
        → Outcome (ChromeClient × Result (Option ChromeResponse))
    with_command fuel url chrome (err e) = ok (chrome, err e)
    with_command fuel url chrome (val jscommand) =
        at_target fuel url.scheme jscommand chrome
          (w.parse_url (query_text (w.query_unescape url.raw_query)))

    -- `doJS`
    unfoldable pub do_js :
        ℕ → Url → ChromeClient → Outcome (ChromeClient × Result (Option ChromeResponse))
    do_js fuel url chrome = with_command fuel url chrome (b.path_unescape url.path)

    unfoldable pub response_only : Result (ChromeResponse × String) → Result (Option ChromeResponse)
    response_only (err e) = err e
    response_only (val (rsp, id)) = val (some rsp)

    -- `Do`: `val none` is a nil response with a nil error.
    unfoldable pub do_request :
        ℕ → Url → ChromeClient → Outcome (ChromeClient × Result (Option ChromeResponse))
    do_request fuel url chrome =
        if has_prefix url.scheme "crawljs"
        then do_js fuel url chrome
        else do_navigate b w false url chrome >>= λ (chrome', r). ok (chrome', response_only r)
