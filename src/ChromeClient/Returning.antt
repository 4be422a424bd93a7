-- ===== src/ChromeClient/Returning.antt =====
-- When `Do` of chromeclient.go comes to its end for a page, and with what.
use ideacrawler.Prelude.{
  String, Bool, true, false, List, [], ◌∷◌, ◌++◌, Option, some, Outcome, ok, panics, on_error_elim,
  Result, val, err, ◌≡◌, ◌⊎◌, ◌∙◌, sym, ap, subst, inl, inr, refl, ℕ, has_prefix, Returns,
  Returns-bind, Returns-if, >>=-ok, if_true, if_false, if_elim,
}
use ideacrawler.Job.{Url}
use ideacrawler.Web.{Web}
use ideacrawler.ChromeClient.{
  ChromeClient, ChromeDoer, Browser, ResponseReceived, History, ChromeResponse,
  check_chrome_process, create_page, in_target, dial_page, new_page, ask_tab, create_target,
}
use ideacrawler.ChromeClient.Navigate.{
  same_page, current_url, await_response, at_entry, first_response, do_navigate, read_page,
  navigate_page, read_at, visit, visit_in,
}
use ideacrawler.ChromeClient.Script.{do_request, do_js, response_only}
use ideacrawler.ChromeClient.Startup.{Lost, create_page-panics_iff}
use ideacrawler.ChromeClient.Answers.{Gives, answered-Gives}

-- The response that ends the loop over them: an error, or one for the URL shown.
abbrev pub Stops : String → Result ResponseReceived → Type 0
Stops current (err e) = Unit
Stops current (val rsp) = same_page rsp.url current ≡ true

-- One of the responses ends the loop.
abbrev pub Ends : String → List (Result ResponseReceived) → Type 0
Ends current events =
    (before : List (Result ResponseReceived)) × (last : Result ResponseReceived) × (after : List
      (Result ResponseReceived))
    × (events ≡ before ++ last ∷ after)
    × Stops current last

module _ (current : String) (last : Result ResponseReceived)
    (after : List (Result ResponseReceived)) (stops : Stops current last) where
  await_last :
      (r : Result ResponseReceived) → Stops current r → Returns (await_response current (r ∷ after))
  unfolding await_response
  await_last (err e) stops' = (err e, refl)
  await_last (val rsp) same = (val rsp, if_true _ (ok (val rsp)) _ same)

  await_response-Returns :
      (before : List (Result ResponseReceived))
      → Returns (await_response current (before ++ last ∷ after))
  unfolding await_response
  await_response-Returns [] = await_last last stops
  await_response-Returns (err e ∷ before) = (err e, refl)
  await_response-Returns (val rsp ∷ before) =
      Returns-if (same_page rsp.url current) _ _ (val rsp, refl) (await_response-Returns before)

  first_response-Returns :
      (h : History) (before : List (Result ResponseReceived))
      → current_url h ≡ some current
      → Returns (first_response h (before ++ last ∷ after))
  unfolding first_response at_entry
  first_response-Returns h [] shown =
      subst (λ o. Returns (at_entry o (last ∷ after))) (sym shown) (await_response-Returns [])
  first_response-Returns h (e ∷ before) shown =
      subst (λ o. Returns (at_entry o (e ∷ before ++ last ∷ after))) (sym shown)
        (await_response-Returns (e ∷ before))

-- `newPage` waits for nothing that the model has: it returns or panics.
Decided {ℓ} : {A : Type ℓ} → Outcome A → Type ℓ
Decided m = (m ≡ panics) ⊎ Returns m

module _ (b : Browser) (chrome : ChromeClient) where
  dial_page-Decided : (id : String) → Decided (dial_page b id chrome)
  unfolding dial_page Decided
  dial_page-Decided id =
      if_elim Decided chrome.mgr _ panics
        (on_error_elim Decided b.dial_target _ _ (λ e. inr (_, refl)) (inr (_, refl))) (inl refl)

module _ (b : Browser) (chrome : ChromeClient) where
  in_target-Decided : (r : Result String) → Decided (in_target b chrome r)
  unfolding in_target Decided
  in_target-Decided (err e) = inr (_, refl)
  in_target-Decided (val id) = dial_page-Decided b (ask_tab (create_target id) chrome) id

  create_page-Decided : Decided (create_page b chrome)
  unfolding create_page Decided
  create_page-Decided =
      if_elim Decided chrome.c _ panics (in_target-Decided b.create_target) (inl refl)

  create_page-Returns : ¬ Lost b chrome → Returns (create_page b chrome)
  unfolding Decided
  create_page-Returns whole = elim create_page-Decided [
    | inl fails ↦ absurd (whole ((create_page-panics_iff b chrome).0 fails))
    | inr returns ↦ returns
  ]

module _ (b : Browser) (w : Web)
    (settled : (h : History)
      → b.navigated.history ≡ val h
      → (current : String) × (current_url h ≡ some current) × Ends current b.events) where
  read_at-Returns :
      (url : Url) (r : Result History) → b.navigated.history ≡ r → Returns (read_at b w url r)
  unfolding read_at
  read_at-Returns url (err e) seen = (err e, refl)
  read_at-Returns url (val h) seen =
      let (current, shown, (before, last, after, split, stops)) = settled h seen in
      let (r, run) = first_response-Returns current last after stops h before shown in
      Returns-bind (first_response h b.events) _ r (ap (first_response h) split ∙ run)
        (read_page b w url r, refl)

  visit-Returns : (url : Url) → Returns (visit b w url)
  unfolding visit
  visit-Returns url =
      on_error_elim Returns (navigate_page b) _ _ (λ e. (err e, refl))
        (read_at-Returns url b.navigated.history refl)

  visit_in-Returns :
      (keep_alive : Bool) (url : Url) (chrome : ChromeClient) (r : Result String)
      → Returns (visit_in b w keep_alive url chrome r)
  unfolding visit_in
  visit_in-Returns keep_alive url chrome (err e) = (_, refl)
  visit_in-Returns keep_alive url chrome (val id) =
      let (r, run) = visit-Returns url in Returns-bind (visit b w url) _ r run (_, refl)

  do_navigate-Returns :
      (keep_alive : Bool) (url : Url) (chrome : ChromeClient)
      → ¬ Lost b (check_chrome_process b chrome).0
      → Returns (do_navigate b w keep_alive url chrome)
  unfolding do_navigate new_page
  do_navigate-Returns keep_alive url chrome whole =
      let (opened, run) = create_page-Returns b (check_chrome_process b chrome).0 whole in
      Returns-bind (new_page b chrome) _ opened run
        (visit_in-Returns keep_alive url opened.0 opened.1)

  -- A request whose scheme is not one of the crawljs schemes comes to its end if the browser is
  -- there, as `newPage` needs it, and, where the tab gives its history, that has a current entry and
  -- the tab receives a response that ends the loop over them: one for the URL of the entry, up to a
  -- slash at the end, or an error. The request gives an error or a response, never neither. The
  -- response has the status and the content type of the first of those received that is for the URL
  -- shown, with no error before it, and its body is the HTML that the tab then has.
  pub do_request-Gives :
      (cd : ChromeDoer) (fuel : ℕ) (url : Url) (chrome : ChromeClient)
      → has_prefix url.scheme "crawljs" ≡ false
      → ¬ Lost b (check_chrome_process b chrome).0
      → (after : ChromeClient) × (r : Result (Option ChromeResponse)) × (do_request b cd w fuel url
            chrome
          ≡ ok (after, r))
        × Gives b w url r
  unfolding do_request
  do_request-Gives cd fuel url chrome plain whole =
      let (navigated, run) = do_navigate-Returns false url chrome whole in
      let done =
        if_false _ (do_js b cd w fuel url chrome) _ plain
        ∙ >>=-ok (do_navigate b w false url chrome) _ navigated run in
      (
        navigated.0,
        response_only b cd w navigated.1,
        done,
        answered-Gives b w cd fuel url chrome plain done,
      )
