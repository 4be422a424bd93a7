-- ===== src/ChromeClient/Answers.antt =====
-- What a plain request to chrome is answered with.
use ideacrawler.Prelude.{
  String, Bool, true, false, List, [], ◌∷◌, ◌++◌, Option, none, some, ok, Result, val, err, ◌≡◌,
  ◌⊎◌, ◌∙◌, sym, ap, inl, inr, refl, ℕ, Bool-cases, has_prefix, All, ok-injective, Ensures,
  Ensures-ok, Ensures-bind, Ensures-bind_any, ensures, ensured, if_true, if_false, if◌then◌else◌,
  subst, val-injective, on_error_elim,
}
use ideacrawler.Job.{Url}
use ideacrawler.Web.{Web}
use ideacrawler.ChromeClient.{
  ChromeClient, ChromeDoer, Browser, ResponseReceived, History, ChromeResponse, new_page,
  close_page,
}
use ideacrawler.ChromeClient.Navigate.{
  same_page, current_url, await_response, first_response, get_html, response_of, do_navigate,
  read_page, with_html, with_tab, navigate_page, at_entry, read_at, visit, visit_in,
}
use ideacrawler.ChromeClient.Script.{do_request, do_js, response_only}

module _ (current : String) where
  abbrev pub Passed : Result ResponseReceived → Type 0
  Passed r = (e : ResponseReceived) × (r ≡ val e) × (same_page e.url current ≡ false)

  -- The first response that matches, after others that do not.
  abbrev pub Match : List (Result ResponseReceived) → ResponseReceived → Type 0
  Match events rsp =
      (before : List (Result ResponseReceived)) × (after : List (Result ResponseReceived)) × (events
        ≡ before ++ val rsp ∷ after)
      × All Passed before
      × (same_page rsp.url current ≡ true)

  Match-later :
      (e : ResponseReceived) (events : List (Result ResponseReceived)) {rsp : ResponseReceived}
      → same_page e.url current ≡ false
      → Match events rsp
      → Match (val e ∷ events) rsp
  Match-later e events other (before, after, split, passed, same) =
      (val e ∷ before, after, ap (λ es. val e ∷ es) split, ((e, refl, other), passed), same)

  await_response-Match :
      (events : List (Result ResponseReceived)) {rsp : ResponseReceived}
      → await_response current events ≡ ok (val rsp)
      → Match events rsp
  unfolding await_response
  await_response-Match [] run = cc
  await_response-Match (err e ∷ events) run = cc
  await_response-Match (val e ∷ events) {rsp = rsp} run =
      elim (Bool-cases (same_page e.url current)) [
        | inl same ↦ here same (ok-injective (sym (if_true _ (ok (val e)) _ same) ∙ run))
        | inr other ↦
            Match-later e events other
              (await_response-Match events (sym (if_false _ (ok (val e)) _ other) ∙ run))
      ]
    where
      here : same_page e.url current ≡ true → val e ≡ val rsp → Match (val e ∷ events) rsp
      here same found = (
        [],
        events,
        ap (λ r. r ∷ events) found,
        tt,
        subst (λ x. same_page x.url current ≡ true) (val-injective found) same,
      )

module _ (b : Browser) (w : Web) where
  -- The answer to a navigation to `url`.
  abbrev pub Answered : Url → Result ChromeResponse → Type 0
  Answered url r =
      ((e : String) × (r ≡ err e))
      ⊎ ((h : History) × (current : String) × (rsp : ResponseReceived) × (html : String)
          × (b.navigated.history ≡ val h)
          × (current_url h ≡ some current)
          × Match current b.events rsp
          × (get_html b.navigated ≡ val html)
          × (r ≡ val (response_of b w url rsp html)))

  with_html-Answered :
      (url : Url) (h : History) (current : String) (rsp : ResponseReceived) (r : Result String)
      → (b.navigated.history ≡ val h)
      → (current_url h ≡ some current)
      → Match current b.events rsp
      → get_html b.navigated ≡ r
      → Answered url (with_html b w url rsp r)
  unfolding with_html
  with_html-Answered url h current rsp (err e) seen at match dump = inl (e, refl)
  with_html-Answered url h current rsp (val html) seen at match dump =
      inr (h, current, rsp, html, seen, at, match, dump, refl)

  read_page-Answered :
      (url : Url) (h : History) (current : String) (r : Result ResponseReceived)
      → (b.navigated.history ≡ val h)
      → (current_url h ≡ some current)
      → await_response current b.events ≡ ok r
      → Answered url (read_page b w url r)
  unfolding read_page
  read_page-Answered url h current (err e) seen at run = inl (e, refl)
  read_page-Answered url h current (val rsp) seen at run =
      with_html-Answered url h current rsp (get_html b.navigated) seen at
        (await_response-Match current b.events run) refl

  abbrev Awaited : History → List (Result ResponseReceived) → Result ResponseReceived → Type 0
  Awaited h events r =
      (current : String) × (current_url h ≡ some current) × (await_response current events ≡ ok r)

  at_entry-Awaited :
      (h : History) (events : List (Result ResponseReceived)) (o : Option String)
      {r : Result ResponseReceived}
      → current_url h ≡ o
      → at_entry o events ≡ ok r
      → Awaited h events r
  unfolding at_entry
  at_entry-Awaited h events none at run = cc
  at_entry-Awaited h events (some current) at run = (current, at, run)

  first_response-Awaited :
      (h : History) (events : List (Result ResponseReceived)) {r : Result ResponseReceived}
      → first_response h events ≡ ok r
      → Awaited h events r
  unfolding first_response
  first_response-Awaited h [] run = cc
  first_response-Awaited h (event ∷ events) run =
      at_entry-Awaited h (event ∷ events) (current_url h) refl run

  read_at-Answered :
      (url : Url) (r : Result History)
      → b.navigated.history ≡ r
      → Ensures (Answered url) (read_at b w url r)
  unfolding read_at
  read_at-Answered url (err e) seen = Ensures-ok (Answered url) (err e) (inl (e, refl))
  read_at-Answered url (val h) seen =
      Ensures-bind (Awaited h b.events) (Answered url) (first_response h b.events) _
        (ensures (Awaited h b.events) (first_response h b.events)
          (λ r. first_response-Awaited h b.events))
        (λ r (current, at, run).
          Ensures-ok (Answered url) (read_page b w url r)
            (read_page-Answered url h current r seen at run))

  visit-Answered : (url : Url) → Ensures (Answered url) (visit b w url)
  unfolding visit
  visit-Answered url =
      on_error_elim (Ensures (Answered url)) (navigate_page b) _ _
        (λ e. Ensures-ok (Answered url) (err e) (inl (e, refl)))
        (read_at-Answered url b.navigated.history refl)

  -- The outcome of a navigation to `url`, in a tab.
  abbrev Visits : Url → ChromeClient × Result (ChromeResponse × String) → Type 0
  Visits url p =
      ((e : String) × (p.1 ≡ err e))
      ⊎ ((rsp : ChromeResponse) × (id : String) × (p.1 ≡ val (rsp, id)) × Answered url (val rsp))

  with_tab-Visits :
      (url : Url) (chrome : ChromeClient) (id : String) (r : Result ChromeResponse)
      → Answered url r
      → Visits url (chrome, with_tab b w id r)
  unfolding with_tab
  with_tab-Visits url chrome id (err e) h = inl (e, refl)
  with_tab-Visits url chrome id (val rsp) h = inr (rsp, id, refl, h)

  with_tab-Visited :
      (keep_alive : Bool) (url : Url) (chrome : ChromeClient) (id : String)
      (r : Result ChromeResponse)
      → Answered url r
      → Ensures
          (Visits url)
          (ok (if keep_alive then chrome else close_page id chrome, with_tab b w id r))
  with_tab-Visited keep_alive url chrome id r h =
      let after = if keep_alive then chrome else close_page id chrome in
      Ensures-ok (Visits url) (after, with_tab b w id r) (with_tab-Visits url after id r h)

  visit_in-Visits :
      (keep_alive : Bool) (url : Url) (chrome : ChromeClient) (r : Result String)
      → Ensures (Visits url) (visit_in b w keep_alive url chrome r)
  unfolding visit_in
  visit_in-Visits keep_alive url chrome (err e) =
      Ensures-ok (Visits url) (chrome, err e) (inl (e, refl))
  visit_in-Visits keep_alive url chrome (val id) =
      Ensures-bind (Answered url) (Visits url) (visit b w url) _ (visit-Answered url)
        (λ r h. with_tab-Visited keep_alive url chrome id r h)

  do_navigate-Visits :
      (keep_alive : Bool) (url : Url) (chrome : ChromeClient)
      → Ensures (Visits url) (do_navigate b w keep_alive url chrome)
  unfolding do_navigate
  do_navigate-Visits keep_alive url chrome =
      Ensures-bind_any (Visits url) (new_page b chrome) _
        (λ opened. visit_in-Visits keep_alive url opened.0 opened.1)

  -- An error, or the response that the page is read as.
  abbrev pub Gives : Url → Result (Option ChromeResponse) → Type 0
  Gives url r =
      ((e : String) × (r ≡ err e))
      ⊎ ((rsp : ChromeResponse) × (r ≡ val (some rsp)) × Answered url (val rsp))

  response_only-Gives :
      (cd : ChromeDoer) (url : Url) (p : ChromeClient × Result (ChromeResponse × String))
      → Visits url p
      → Gives url (response_only b cd w p.1)
  unfolding response_only
  response_only-Gives cd url (chrome, err e) h = inl (e, refl)
  response_only-Gives cd url (chrome, val (rsp, id)) (inl (e, fails)) = cc
  response_only-Gives cd url (chrome, val (rsp, id)) (inr (rsp', id', same, h)) =
      let found = val-injective same in
      inr (rsp, refl, subst (λ x. Answered url (val x)) (sym (ap (λ p. p.0) found)) h)

  abbrev GivesAt : Url → ChromeClient × Result (Option ChromeResponse) → Type 0
  GivesAt url p = Gives url p.1

  pub answered-Gives :
      (cd : ChromeDoer) (fuel : ℕ) (url : Url) (chrome : ChromeClient) {after : ChromeClient}
      {r : Result (Option ChromeResponse)}
      → has_prefix url.scheme "crawljs" ≡ false
      → do_request b cd w fuel url chrome ≡ ok (after, r)
      → Gives url r
  unfolding do_request
  answered-Gives cd fuel url chrome plain run =
      ensured (GivesAt url) _
        (Ensures-bind (Visits url) (GivesAt url) (do_navigate b w false url chrome) _
          (do_navigate-Visits false url chrome)
          (λ p h.
            Ensures-ok (GivesAt url) (p.0, response_only b cd w p.1)
              (response_only-Gives cd url p h)))
        (sym (if_false _ (do_js b cd w fuel url chrome) _ plain) ∙ run)
