-- ===== src/Fetch/Queueing.antt =====
-- What `fetchHTTPGetHandler` of job.go adds to the queue, and how deep a crawl goes.
use ideacrawler.Prelude.{
  String, Bool, true, List, ◌++◌, Option, none, some, Outcome, ok, Result, val, err, ◌≡◌, inl, inr,
  refl, Bool-cases, ◌∙◌, Ensures, ensures, ensured, Ensures-if, Ensures-ok, Ensures-bind,
  Result-cases,
}
use ideacrawler.Prelude.Int.{pos, eqb_ℤ}
use ideacrawler.Proto.{PageHtml}
use ideacrawler.Job.{Job, CrawlCommand, done, request_cancel}
use ideacrawler.Job.Sending.{send_page_html-keeps, request_cancel-keeps}
use ideacrawler.Web.{Web, Link, Response}
use ideacrawler.Fetch.Links.{scan_links, start_scan, enqueue_links}
use ideacrawler.Fetch.Links.Targets.{Targets, enqueue_links-added, enqueue_links-opts}
use ideacrawler.Fetch.{
  callback_page, still_logged_in, follows_links, ship_page, follow_links, after_login, handle_body,
  after_read, fetch_http_get_handler, page_of, send_page, is_error_status,
}

abbrev Same : Job → Job → Type 0
Same j j' = (j'.queue ≡ j.queue) × (j'.opts ≡ j.opts)

module _ (w : Web) (ps : Bool) (cmd : CrawlCommand) (res : Response) where
  -- From a job `j` to `j'`: the queue stays, or the links of the body are followed.
  pub data Queues (j j' : Job) : Type 0 where
    stays : j'.queue ≡ j.queue → j'.opts ≡ j.opts → Queues j j'
    follows :
        (body : String) (links : List Link) (cmds : List CrawlCommand)
        → res.body ≡ val body
        → follows_links w j cmd ≡ true
        → w.find_links body ≡ val links
        → j'.queue ≡ j.queue ++ cmds
        → Targets w j
            (page_of cmd res)
            links
            (scan_links w j (page_of cmd res) links (start_scan j)).enqueued
            cmds
        → j'.opts ≡ j.opts
        → Queues j j'

  send_page-Same : (p : PageHtml) (j : Job) → Ensures (Same j) (send_page w ps p j)
  send_page-Same p j =
      ensures (Same j) _ (λ j' h. let (q, _, o) = send_page_html-keeps ps true p j j' h in (q, o))

  Same-Queues : (j : Job) (m : Outcome Job) → Ensures (Same j) m → Ensures (Queues j) m
  Same-Queues j m s =
      ensures (Queues j) m (λ j' h. let (q, o) = ensured (Same j) m s h in stays q o)

  send_page-Queues : (p : PageHtml) (j : Job) → Ensures (Queues j) (send_page w ps p j)
  send_page-Queues p j = Same-Queues j _ (send_page-Same p j)

  ship_page-Same : (body : String) (j : Job) → Ensures (Same j) (ship_page w ps cmd res body j)
  unfolding ship_page
  ship_page-Same body j =
      Ensures-bind (λ _. Unit {0}) (Same j) (callback_page w j cmd body) _ (ensures _ _ (λ _ _. tt))
        (λ wanted _.
          Ensures-if (Same j) wanted _ (ok j) (λ _. send_page-Same _ j)
            (λ _. Ensures-ok (Same j) j (refl, refl)))

  follow_links-Queues :
      (body : String) (j : Job)
      → res.body ≡ val body
      → Ensures (Queues j) (follow_links w ps cmd res body j)
  unfolding follow_links
  follow_links-Queues body j got = elim (Bool-cases (follows_links w j cmd)) [
    | inr no_follow ↦ rw no_follow (Same-Queues j _ (ship_page-Same body j))
    | inl follow ↦ rw follow (elim (Result-cases (w.find_links body)) [
      | inl (_, e) ↦ rw (e, follow_links) (send_page-Queues _ j)
      | inr (links, e) ↦
          rw (e, follow_links)
            (Ensures-bind (Queues j) (Queues j) (enqueue_links w ps (page_of cmd res) links j) _
              (ensures (Queues j) _ (λ j₁ h.
                let (cmds, q, t) = enqueue_links-added w ps (page_of cmd res) links j j₁ h in
                follows body links cmds got follow e q t
                  (enqueue_links-opts w ps (page_of cmd res) links j j₁ h)))
              (λ j₁ k.
                ensures (Queues j) _
                  (λ j₂ h. moved j₁ j₂ (ensured (Same j₁) _ (ship_page-Same body j₁) h) k)))
    ])
  ]
    where
      moved : (j₁ j₂ : Job) → Same j₁ j₂ → Queues j j₁ → Queues j j₂
      moved j₁ j₂ (same, o) (stays q p) = stays (same ∙ q) (o ∙ p)
      moved j₁ j₂ (same, o) (follows b links cmds r f e q t p) =
          follows b links cmds r f e (same ∙ q) t (o ∙ p)

  after_login-Queues :
      (body : String) (j : Job) (lost : Option String)
      → res.body ≡ val body
      → Ensures (Queues j) (after_login w ps cmd res body j lost)
  unfolding after_login
  after_login-Queues body j none got = follow_links-Queues body j got
  after_login-Queues body j (some message) got =
      Ensures-bind (Same j) (Queues j) _ request_cancel (send_page-Same _ j) (λ j₁ same.
        ensures (Queues j) _
          (λ j₂ e. let (q, _, o) = request_cancel-keeps j₁ j₂ e in stays (q ∙ same.0) (o ∙ same.1)))

  handle_body-Queues :
      (body : String) (j : Job)
      → res.body ≡ val body
      → Ensures (Queues j) (handle_body w ps cmd res body j)
  unfolding handle_body
  handle_body-Queues body j got =
      Ensures-bind (λ _. Unit {0}) (Queues j) (still_logged_in w j body) _ (ensures _ _ (λ _ _. tt))
        (λ lost _. after_login-Queues body j lost got)

  after_read-Queues :
      (j : Job) (r : Result String)
      → res.body ≡ r
      → Ensures (Queues j) (after_read w ps cmd res j r)
  unfolding after_read
  after_read-Queues j (val body) got = handle_body-Queues body j got
  after_read-Queues j (err error) got = send_page-Queues _ j

  get_handler-Queues : (j : Job) → Ensures (Queues j) (fetch_http_get_handler w ps cmd res j)
  unfolding fetch_http_get_handler
  get_handler-Queues j =
      let same = Ensures-ok (Queues j) j (stays refl refl) in
      Ensures-if (Queues j) (done j) (ok j) _ (λ _. same)
        (λ _.
          Ensures-if (Queues j) cmd.no_callback (ok j) _ (λ _. same)
            (λ _.
              Ensures-if (Queues j) (is_error_status res.status_code) _ _
                (λ _.
                  Ensures-if (Queues j) (eqb_ℤ cmd.url_depth (pos 0)) _ (ok j)
                    (λ _. send_page-Queues _ j) (λ _. same))
                (λ _. after_read-Queues j res.body refl)))

  -- A response adds to the queue only when the links of its body are followed, and then exactly the
  -- commands that links of the body call for, one level below the response's own.
  pub fetch_http_get_handler-Queues :
      (j j' : Job) → fetch_http_get_handler w ps cmd res j ≡ ok j' → Queues j j'
  fetch_http_get_handler-Queues j j' h = ensured (Queues j) _ (get_handler-Queues j) h
