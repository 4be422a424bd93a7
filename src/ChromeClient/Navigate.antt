-- ===== src/ChromeClient/Navigate.antt =====
-- `doNavigate` of chromeclient/chromeclient.go: a page is opened in a tab of its own, and read.
use ideacrawler.Prelude.{
  on_error, String, ◌<>◌, Bool, ◌||◌, List, [], ◌∷◌, Option, none, some, Outcome, ok, blocks,
  panics, ◌>>=◌, Result, val, err, ℕ, zero, suc, str_eq, if◌then◌else◌,
}
use ideacrawler.Prelude.Int.{ℤ, pos, negsuc}
use ideacrawler.Job.{Url}
use ideacrawler.Web.{Web}
use ideacrawler.ChromeClient.{
  ChromeClient, Browser, History, ResponseReceived, Dump, ChromeResponse, new_page, close_page,
}

-- `navhist.Entries[navhist.CurrentIndex].URL`, `none` for an index out of range.
abbrev entry_at : ℕ → List String → Option String
entry_at n [] = none
entry_at zero (url ∷ urls) = some url
entry_at (suc n) (url ∷ urls) = entry_at n urls

at_index : ℤ → List String → Option String
at_index (pos n) urls = entry_at n urls
at_index (negsuc n) urls = none

unfoldable pub current_url : History → Option String
unfolding at_index
current_url h = at_index h.current_index h.entries

abbrev pub same_page : String → String → Bool
same_page url current =
    str_eq url current || str_eq (url <> "/") current || str_eq url (current <> "/")

-- The loop over the responses received.
unfoldable pub await_response :
    String → List (Result ResponseReceived) → Outcome (Result ResponseReceived)
await_response current [] = blocks
await_response current (err e ∷ events) = ok (err e)
await_response current (val rsp ∷ events) =
    let rest = await_response current events in
    if same_page rsp.url current then ok (val rsp) else rest

unfoldable pub at_entry :
    Option String → List (Result ResponseReceived) → Outcome (Result ResponseReceived)
at_entry none events = panics
at_entry (some current) events = await_response current events

-- It starts with the first response: that is waited for before the history is looked at.
unfoldable pub first_response :
    History → List (Result ResponseReceived) → Outcome (Result ResponseReceived)
first_response h [] = blocks
first_response h (event ∷ events) = at_entry (current_url h) (event ∷ events)

-- `DOM.GetDocument` and `DOM.GetOuterHTML`
unfoldable pub get_html : Dump → Result String
get_html d = on_error d.document err d.outer_html

module _ (b : Browser) where
  -- `navigate`
  unfoldable pub navigate_page : Option String
  navigate_page =
      on_error b.enable some
        (on_error b.dom_content_event_fired some (on_error b.navigate some b.dom_content))

  module _ (w : Web) where
    content_type_of : List (String × String) → Option String
    content_type_of [] = none
    content_type_of ((key, value) ∷ headers) =
        let rest = content_type_of headers in
        if str_eq (w.to_lower key) "content-type" then some value else rest

    unfoldable pub response_of : Url → ResponseReceived → String → ChromeResponse
    unfolding content_type_of
    response_of url rsp html = record {
      status_code = rsp.status;
      status = rsp.status_text;
      body = html;
      request_url = url;
      content_type = content_type_of rsp.headers;
    }

    unfoldable pub with_html : Url → ResponseReceived → Result String → Result ChromeResponse
    with_html url rsp (err e) = err e
    with_html url rsp (val html) = val (response_of url rsp html)

    unfoldable pub read_page : Url → Result ResponseReceived → Result ChromeResponse
    read_page url (err e) = err e
    read_page url (val rsp) = with_html url rsp (get_html b.navigated)

    unfoldable pub read_at : Url → Result History → Outcome (Result ChromeResponse)
    read_at url (err e) = ok (err e)
    read_at url (val h) = first_response h b.events >>= λ rsp. ok (read_page url rsp)

    -- `doNavigate` in the tab that it has.
    unfoldable pub visit : Url → Outcome (Result ChromeResponse)
    visit url = on_error navigate_page (λ e. ok (err e)) (read_at url b.navigated.history)

    unfoldable pub with_tab : String → Result ChromeResponse → Result (ChromeResponse × String)
    with_tab id (err e) = err e
    with_tab id (val rsp) = val (rsp, id)

    unfoldable pub visit_in :
        Bool
        → Url
        → ChromeClient
        → Result String
        → Outcome (ChromeClient × Result (ChromeResponse × String))
    visit_in keep_alive url chrome (err e) = ok (chrome, err e)
    visit_in keep_alive url chrome (val id) =
        visit url >>= λ r. ok (if keep_alive then chrome else close_page id chrome, with_tab id r)

    -- `doNavigate`. The deferred `closePage` comes after every return.
    unfoldable pub do_navigate :
        Bool → Url → ChromeClient → Outcome (ChromeClient × Result (ChromeResponse × String))
    do_navigate keep_alive url chrome =
        new_page b chrome >>= λ opened. visit_in keep_alive url opened.0 opened.1
