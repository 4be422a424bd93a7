-- ===== src/RunJob/Ending.antt =====
-- What a `RunJob` of job.go that returns before the crawl leaves behind.
use ideacrawler.Prelude.{
  Option-cases, if_elim, str_eq, String, Bool, true, false, Option, none, some, ok, Result, val,
  err, ◌≡◌, ◌∙◌, inl, inr, refl, ap, on_error_cases, on_error_elim, >>=-ok, Ensures, Ensures-ok,
  Ensures-bind, Ensures-bind_eq, Ensures-if, ensured, Ensures-panics, Returns, Returns-bind,
  Returns-if, if_false, panics,
}
use ideacrawler.Prelude.Chan.{Chan, close}
use ideacrawler.Proto.{PageHtml}
use ideacrawler.Prelude.Int.{pos}
use ideacrawler.Prelude.Dict.{mark}
use ideacrawler.Job.{CrawlCommand, Job, done, set_send_chan}
use ideacrawler.Web.{Web}
use ideacrawler.Server.{Mode}
use ideacrawler.Login.{Client}
use ideacrawler.RunJob.{
  send_command, seed_with, new_crawl_command, http_client, start_canceller, enqueue_seed,
  close_send, close_done,
}
use ideacrawler.RunJob.Settings.{SetUp, make_fetcher-SetUp}
use ideacrawler.RunJob.Setup.{
  Begun, unlogged, ended, crawls, Outside, make_fetcher, make_client, setup_job_logger, deferred,
  end_run, start_crawl, with_client, run_job,
}

abbrev SendClosed : Job → Type 0
SendClosed j = (c : Chan PageHtml) × (j.subscriber.send_chan ≡ some c) × (c.closed ≡ true)

-- Both channels are closed, so the client's stream ends and the registry drops the job.
abbrev pub Closed : Job → Type 0
Closed j = SendClosed j × (done j ≡ true)

closed-SendClosed :
    (j : Job) (o : Option (Chan PageHtml)) → Ensures (λ c. SendClosed (set_send_chan j c)) (close o)
closed-SendClosed j none = Ensures-panics (λ c. SendClosed (set_send_chan j c))
closed-SendClosed j (some c) =
    Ensures-if (λ c. SendClosed (set_send_chan j c)) c.closed _ _
      (λ twice. Ensures-panics (λ c. SendClosed (set_send_chan j c)))
      (λ open_.
        Ensures-ok (λ c. SendClosed (set_send_chan j c)) (some (record c { closed = true }))
          (record c { closed = true }, refl, refl))

close_send-SendClosed : (j : Job) → Ensures SendClosed (close_send j)
unfolding close_send
close_send-SendClosed j =
    Ensures-bind (λ c. SendClosed (set_send_chan j c)) SendClosed (close j.subscriber.send_chan) _
      (closed-SendClosed j j.subscriber.send_chan)
      (λ c h. Ensures-ok SendClosed (set_send_chan j c) h)

close_done-Closed : (j : Job) → SendClosed j → Ensures Closed (close_done j)
unfolding close_done
close_done-Closed j sent =
    Ensures-if Closed j.done_closed _ _ (λ twice. Ensures-panics Closed)
      (λ open_. Ensures-ok Closed (record j { done_closed = true }) (sent, refl))

deferred-Closed : (j : Job) → Ensures Closed (deferred j)
unfolding deferred
deferred-Closed j =
    Ensures-bind SendClosed Closed (close_send j) _ (close_send-SendClosed j) (λ j' sent.
      Ensures-if Closed (done j') (ok j') (close_done j')
        (λ closed. Ensures-ok Closed j' (sent, closed)) (λ open_. close_done-Closed j' sent))

-- The channels as `addNewJob` makes them for a client.
abbrev pub Open : Job → Type 0
Open j =
    ((c : Chan PageHtml) × (j.subscriber.send_chan ≡ some c) × (c.closed ≡ false))
    × (done j ≡ false)

close_open :
    (o : Option (Chan PageHtml)) (c : Chan PageHtml)
    → o ≡ some c
    → c.closed ≡ false
    → close o ≡ ok (some (record c { closed = true }))
close_open o c same open_ =
    ap close same ∙ if_false c.closed panics (ok (some (record c { closed = true }))) open_

deferred-Returns : (j : Job) → Open j → Returns (deferred j)
unfolding deferred close_send close_done
deferred-Returns j ((c, same, open_), live) =
    let shut = set_send_chan j (some (record c { closed = true })) in
    Returns-bind (close_send j) _ shut
      (>>=-ok (close j.subscriber.send_chan) (λ c'. ok (set_send_chan j c')) _
        (close_open j.subscriber.send_chan c same open_))
      (Returns-if (done shut) (ok shut) (close_done shut) (shut, refl)
        (_, if_false j.done_closed panics _ live))

-- Putting the seed into the queue touches neither channel.
module _ (w : Web) (path_escape query_escape : String → String) where
  abbrev KeepsOpen : Job × Bool → Type 0
  KeepsOpen p = Open p.0

  send_command-Open :
      (cmd : CrawlCommand) (j : Job)
      → Open j
      → Open (send_command w path_escape query_escape cmd j).0
  unfolding send_command
  send_command-Open cmd j open_ = elim (Option-cases (w.queue_send j.queue cmd)) [
    | inl taken ↦ rw (send_command, taken) open_
    | inr (e, full) ↦ rw (send_command, full) open_
  ]

  seed_with-Open :
      (r : Result CrawlCommand) (j : Job)
      → Open j
      → Open (seed_with w path_escape query_escape r j).0
  unfolding seed_with
  seed_with-Open (err e) j open_ = open_
  seed_with-Open (val cmd) j open_ = send_command-Open cmd j open_

  enqueue_seed-Open : (j : Job) → Open j → Open (enqueue_seed w path_escape query_escape j).0
  unfolding enqueue_seed
  enqueue_seed-Open j open_ =
      if_elim KeepsOpen (str_eq j.opts.seed_url "") (j, true) _ open_
        (seed_with-Open
          (new_crawl_command w path_escape query_escape "GET" j.opts.seed_url "" (pos 0))
          (record j { duplicates = mark j.opts.seed_url j.duplicates }) open_)

module _ (w : Web) (out : Outside) (mode : Mode) (sub_id : String) (j : Job) where
  abbrev pub log_error : Option String
  log_error = setup_job_logger out.path_join out.create out.log_path sub_id

  -- Where `RunJob` is: it has returned, or it crawls.
  abbrev pub Leaves : Begun → Type 0
  Leaves (unlogged j') = ((e : String) × (log_error ≡ some e)) × (j' ≡ j)
  Leaves (ended j') = (log_error ≡ none) × Closed j'
  Leaves (crawls j' f) =
      (log_error ≡ none)
      × ((before : Job) × (client : Client) × (make_client w out (http_client mode j.opts) j
            ≡ ok (before, val client))
          × (enqueue_seed w out.path_escape out.query_escape (start_canceller before) ≡ (j', true))
          × SetUp before.opts client f)

  end_run-Leaves : (j' : Job) → log_error ≡ none → Ensures Leaves (end_run w out j')
  unfolding end_run
  end_run-Leaves j' logged =
      Ensures-bind Closed Leaves (deferred j') _ (deferred-Closed j')
        (λ j'' closed. Ensures-ok Leaves (ended j'') (logged, closed))

  start_crawl-Leaves :
      (before : Job) (client : Client)
      → log_error ≡ none
      → make_client w out (http_client mode j.opts) j ≡ ok (before, val client)
      → Ensures Leaves (start_crawl w out before client)
  unfolding start_crawl
  start_crawl-Leaves before client logged made =
      let seeded = enqueue_seed w out.path_escape out.query_escape (start_canceller before) in
      Ensures-if Leaves seeded.1 _ _
        (λ goes_on. Ensures-ok Leaves (crawls seeded.0 (make_fetcher before.opts client)) (
          logged,
          (
            before,
            client,
            made,
            ap (λ b. (seeded.0, b)) goes_on,
            make_fetcher-SetUp before.opts client,
          ),
        ))
        (λ stops. end_run-Leaves seeded.0 logged)

  with_client-Leaves :
      (before : Job) (client : Result Client)
      → log_error ≡ none
      → make_client w out (http_client mode j.opts) j ≡ ok (before, client)
      → Ensures Leaves (with_client w out before client)
  unfolding with_client
  with_client-Leaves before (err e) logged made = end_run-Leaves before logged
  with_client-Leaves before (val client) logged made = start_crawl-Leaves before client logged made

  run_job-Ensures : Ensures Leaves (run_job w out mode sub_id j)
  unfolding run_job
  run_job-Ensures =
      on_error_cases (Ensures Leaves) log_error _ _
        (λ e fails. Ensures-ok Leaves (unlogged j) ((e, fails), refl))
        (λ logged.
          Ensures-bind_eq Leaves (make_client w out (http_client mode j.opts) j) _
            (λ made run. with_client-Leaves made.0 made.1 logged run))

  end_run-Returns : (j' : Job) → Open j' → Returns (end_run w out j')
  unfolding end_run
  end_run-Returns j' open_ =
      let (after, closes) = deferred-Returns j' open_ in
      Returns-bind (deferred j') _ after closes (ended after, refl)

  start_crawl-Returns :
      (before : Job) (client : Client) → Open before → Returns (start_crawl w out before client)
  unfolding start_crawl start_canceller
  start_crawl-Returns before client open_ =
      let seeded = enqueue_seed w out.path_escape out.query_escape (start_canceller before) in
      Returns-if seeded.1 _ _ (_, refl)
        (end_run-Returns seeded.0
          (enqueue_seed-Open w out.path_escape out.query_escape (start_canceller before) open_))

  with_client-Returns :
      (before : Job) (client : Result Client)
      → Open before
      → Returns (with_client w out before client)
  unfolding with_client
  with_client-Returns before (err e) open_ = end_run-Returns before open_
  with_client-Returns before (val client) open_ = start_crawl-Returns before client open_

  -- Once the making of the HTTP client has come to its end, with the client's channels open, `RunJob`
  -- returns or crawls. If it returns it leaves both channels closed, the send channel, which ends the
  -- client's stream, and `doneChan`, by which the registry drops the job; unless the log cannot be
  -- opened: then the job is left as it was, and neither is closed. If it crawls, the HTTP client was
  -- made without an error, the seed is queued where there is one, and the fetcher has what the options
  -- ask for, as the making of the client left them: the client, the politeness, the user agent, the
  -- threads, the idle time, and the handlers, for the wanted content type.
  pub run_job-Leaves :
      {before : Job} {client : Result Client}
      → make_client w out (http_client mode j.opts) j ≡ ok (before, client)
      → Open before
      → (r : Begun) × (run_job w out mode sub_id j ≡ ok r) × Leaves r
  unfolding run_job
  run_job-Leaves {before = before} {client = client} made open_ =
      let (r, run) =
        on_error_elim Returns log_error _ _ (λ e. (unlogged j, refl))
          (Returns-bind (make_client w out (http_client mode j.opts) j) _ (before, client) made
            (with_client-Returns before client open_)) in
      (r, run, ensured Leaves _ run_job-Ensures run)
