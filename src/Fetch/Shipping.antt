-- ===== src/Fetch/Shipping.antt =====
-- What `fetchHTTPGetHandler` of job.go sends to the client for one response.
use ideacrawler.Prelude.{
  String, Bool, true, false, List, [], ◌∷◌, ◌++◌, Option, none, some, ok, Result, val, err, ◌≡◌,
  inl, inr, refl, arith, Bool-cases, sym, ap, ◌∙◌, Ensures, ensures, ensured, Ensures-ok,
  Ensures-if, Ensures-bind, Result-cases, ◌<>◌,
}
use ideacrawler.Prelude.Int.{ℤ, pos, eqb_ℤ, int32}
use ideacrawler.StatusCodes
use ideacrawler.Proto.{PageHtml, UrlList}
use ideacrawler.Job.{Job, CrawlCommand, done, request_cancel}
use ideacrawler.Job.Sending.{pages, send_page_html-pages, request_cancel-pages}
use ideacrawler.Web.{Web, Link, Response}
use ideacrawler.Fetch.Links.{Page, send_report, enqueue_links}
use ideacrawler.Fetch.{
  callback_page, still_logged_in, follows_links, ship_page, follow_links, after_login, handle_body,
  after_read, fetch_http_get_handler, page_of, send_page, is_error_status, success_page,
}

send_report-shape :
    (ps : Bool) (list : UrlList) (j j' : Job)
    → send_report ps list j ≡ ok j'
    → (j' ≡ record j { subscriber = j'.subscriber }) × (pages j' ≡ pages j)
unfolding send_report
send_report-shape ps list j j' h = ground arith

enqueue_links-shape :
    (w : Web) (ps : Bool) (pg : Page) (links : List Link) (j j' : Job)
    → enqueue_links w ps pg links j ≡ ok j'
    → (j' ≡ record j { subscriber = j'.subscriber; duplicates = j'.duplicates; queue = j'.queue })
      × (pages j' ≡ pages j)
unfolding enqueue_links
enqueue_links-shape w ps pg links j j' h =
    let (e, p) = send_report-shape ps _ _ j' h in (ground (arith, e), p)

module _ (w : Web) (ps : Bool) (cmd : CrawlCommand) (res : Response) where
  -- A page that reports a failure: its URL, code and error, and the depth of the request.
  abbrev pub Says : PageHtml → String → ℤ → String → Type 0
  Says p url code error =
      (p.success ≡ false)
      × (p.url ≡ url)
      × (p.httpstatuscode ≡ code)
      × (p.error ≡ error)
      × (p.url_depth ≡ cmd.url_depth)

  abbrev pub fetch_message : String → String
  fetch_message error = "ERR - " <> cmd.method <> " " <> w.url_string cmd.url <> " - " <> error

  -- Why a page goes to the client, and what it says then.
  pub data Reason (j : Job) (p : PageHtml) : Type 0 where
    bad_status :
        is_error_status res.status_code ≡ true
        → eqb_ℤ cmd.url_depth (pos 0) ≡ true
        → Says p (w.url_string res.request_url) (int32 res.status_code) res.status
        → Reason j p
    unread :
        (error : String)
        → res.body ≡ err error
        → Says p (w.url_string res.request_url) StatusCodes.response_error (fetch_message error)
        → Reason j p
    logged_out :
        (body message : String)
        → res.body ≡ val body
        → still_logged_in w j body ≡ ok (some message)
        → Says p "" StatusCodes.nolonger_logged_in message
        → Reason j p
    unparsed :
        (body error : String)
        → res.body ≡ val body
        → w.find_links body ≡ err error
        → Says p "" StatusCodes.follow_parse_error (fetch_message error <> "\n")
        → Reason j p
    wanted :
        (body : String)
        → is_error_status res.status_code ≡ false
        → res.body ≡ val body
        → still_logged_in w j body ≡ ok none
        → callback_page w j cmd body ≡ ok true
        → p ≡ success_page w j cmd res body
        → Reason j p

  pub data Ships (j j' : Job) : Type 0 where
    silent : pages j' ≡ pages j → Ships j j'
    ships : (p : PageHtml) → Reason j p → pages j' ≡ pages j ++ p ∷ [] → Ships j j'

  send_page-Ships : (p : PageHtml) (j : Job) → Reason j p → Ensures (Ships j) (send_page w ps p j)
  send_page-Ships p j r = ensures (Ships j) _ (λ j' h.
      elim (send_page_html-pages ps true p j j' h).1 [
        | inl added ↦ ships p r added
        | inr (same, _) ↦ silent same
      ])

  module _ (body : String) (good : is_error_status res.status_code ≡ false)
      (got : res.body ≡ val body) where
    ship_page-Ships :
        (j : Job)
        → still_logged_in w j body ≡ ok none
        → Ensures (Ships j) (ship_page w ps cmd res body j)
    unfolding ship_page
    ship_page-Ships j in_ =
        Ensures-bind (λ b. callback_page w j cmd body ≡ ok b) (Ships j) (callback_page w j cmd body)
          _ (ensures _ _ (λ b e. e))
          (λ b e.
            Ensures-if (Ships j) b _ (ok j)
              (λ y. send_page-Ships _ j (wanted body good got in_ (rw y at e) refl))
              (λ _. Ensures-ok (Ships j) j (silent refl)))

    shifted :
        (j k : Job)
        → k ≡ record j { subscriber = k.subscriber; duplicates = k.duplicates; queue = k.queue }
        → (p : PageHtml) → Reason k p
        → Reason j p
    unfolding callback_page still_logged_in
    shifted j k e p (bad_status a b c) = bad_status a b c
    shifted j k e p (unread error a b) = unread error a b
    shifted j k e p (logged_out b m a c d) =
        logged_out b m a (sym (ap (λ x. still_logged_in w x b) e) ∙ c) d
    shifted j k e p (unparsed b error a c d) = unparsed b error a c d
    shifted j k e p (wanted b a c d f g) =
        wanted b a c (sym (ap (λ x. still_logged_in w x b) e) ∙ d)
          (sym (ap (λ x. callback_page w x cmd b) e) ∙ f)
          (g ∙ ap (λ x. success_page w x cmd res b) e)

    follow_links-Ships :
        (j : Job)
        → still_logged_in w j body ≡ ok none
        → Ensures (Ships j) (follow_links w ps cmd res body j)
    unfolding follow_links still_logged_in
    follow_links-Ships j in_ = elim (Bool-cases (follows_links w j cmd)) [
      | inr no_follow ↦ rw no_follow (ship_page-Ships j in_)
      | inl follow ↦ rw follow (elim (Result-cases (w.find_links body)) [
        | inl (error, e) ↦
            rw (e, follow_links)
              (send_page-Ships _ j (unparsed body error got e (refl, refl, refl, refl, refl)))
        | inr (links, e) ↦
            rw (e, follow_links)
              (Ensures-bind (λ k. enqueue_links w ps (page_of cmd res) links j ≡ ok k) (Ships j) _ _
                (ensures _ _ (λ k h. h))
                (λ k h. later k (enqueue_links-shape w ps (page_of cmd res) links j k h)))
      ])
    ]
      where
        moved :
            (k l : Job)
            → k ≡ record j { subscriber = k.subscriber; duplicates = k.duplicates; queue = k.queue }
            → pages k ≡ pages j
            → Ships k l
            → Ships j l
        moved k l e same (silent s) = silent (s ∙ same)
        moved k l e same (ships p r s) =
            ships p (shifted j k e p r) (s ∙ ap (λ x. x ++ p ∷ []) same)

        later :
            (k : Job)
            → (k ≡ record j {
              subscriber = k.subscriber;
              duplicates = k.duplicates;
              queue = k.queue;
            })
              × (pages k ≡ pages j)
            → Ensures (Ships j) (ship_page w ps cmd res body k)
        later k (e, same) = ensures (Ships j) _ (λ l h. moved k l e same (
            ensured (Ships k) _ (ship_page-Ships k (ap (λ x. still_logged_in w x body) e ∙ in_)) h))

    after_login-Ships :
        (j : Job) (lost : Option String)
        → still_logged_in w j body ≡ ok lost
        → Ensures (Ships j) (after_login w ps cmd res body j lost)
    unfolding after_login
    after_login-Ships j none e = follow_links-Ships j e
    after_login-Ships j (some message) e =
        Ensures-bind (Ships j) (Ships j) _ request_cancel
          (send_page-Ships _ j (logged_out body message got e (refl, refl, refl, refl, refl)))
          (λ k s. ensures (Ships j) _ (λ l h. cancelled k l (request_cancel-pages k l h).0 s))
      where
        cancelled : (k l : Job) → pages l ≡ pages k → Ships j k → Ships j l
        cancelled k l same (silent s) = silent (same ∙ s)
        cancelled k l same (ships p r s) = ships p r (same ∙ s)

    handle_body-Ships : (j : Job) → Ensures (Ships j) (handle_body w ps cmd res body j)
    unfolding handle_body
    handle_body-Ships j =
        Ensures-bind (λ lost. still_logged_in w j body ≡ ok lost) (Ships j)
          (still_logged_in w j body) _ (ensures _ _ (λ lost e. e))
          (λ lost e. after_login-Ships j lost e)

  after_read-Ships :
      (j : Job) (r : Result String)
      → is_error_status res.status_code ≡ false
      → res.body ≡ r
      → Ensures (Ships j) (after_read w ps cmd res j r)
  unfolding after_read
  after_read-Ships j (val body) good got = handle_body-Ships body good got j
  after_read-Ships j (err error) good got =
      send_page-Ships _ j (unread error got (refl, refl, refl, refl, refl))

  get_handler-Ships : (j : Job) → Ensures (Ships j) (fetch_http_get_handler w ps cmd res j)
  unfolding fetch_http_get_handler
  get_handler-Ships j =
      let quiet = Ensures-ok (Ships j) j (silent refl) in
      Ensures-if (Ships j) (done j) (ok j) _ (λ _. quiet)
        (λ _.
          Ensures-if (Ships j) cmd.no_callback (ok j) _ (λ _. quiet)
            (λ _.
              Ensures-if (Ships j) (is_error_status res.status_code) _ _
                (λ bad.
                  Ensures-if (Ships j) (eqb_ℤ cmd.url_depth (pos 0)) _ (ok j)
                    (λ top. send_page-Ships _ j (bad_status bad top (refl, refl, refl, refl, refl)))
                    (λ _. quiet))
                (λ good. after_read-Ships j res.body good refl)))

  -- One response sends at most one page. A page that reports success carries the body as it was
  -- read, and goes only if the status is no error, the login still holds and the callback checks
  -- answer yes; every other page reports the failure that is the reason for it, a bad status, a read
  -- or a parse that fails or a lost login, by its code, its error and the URL that the code gives it.
  pub fetch_http_get_handler-Ships :
      (j j' : Job) → fetch_http_get_handler w ps cmd res j ≡ ok j' → Ships j j'
  fetch_http_get_handler-Ships j j' h = ensured (Ships j) _ (get_handler-Ships j) h
