-- ===== src/RunJob/Requests.antt =====
-- What the goroutine of `RunJob` in job.go makes of the page requests of a job.
use ideacrawler.Prelude.{
  String, Bool, true, false, some, List, [], ◌∷◌, ◌++◌, Result, val, err, ◌≡◌, refl, ap, ◌∙◌, ◌⊎◌,
  inl, inr, Option-cases, Result-cases, sym,
}
use mathlib.Core.List.{append-nil, append_assoc}
use ideacrawler.Prelude.Int.{pos}
use ideacrawler.Proto.{PageRequest, PageReqType, get, head, builtinjs, jscript, other}
use ideacrawler.Job.{Job, Url, CrawlCommand}
use ideacrawler.Web.{Web}
use ideacrawler.RunJob.{
  new_crawl_command, js_command, new_js_command, request_command, send_command, enqueue_command,
  take_request, handle_pages,
}

module _ (w : Web) (path_escape query_escape : String → String) where
  plain_command : String → PageRequest → Url → CrawlCommand
  plain_command method pr u = record {
    method = method;
    url = u;
    no_callback = false;
    meta_str = pr.meta_str;
    url_depth = pos 0;
    anchor_text = "";
  }

  -- The command that a request with the parsed URL `u` asks for.
  pub wanted : PageReqType → PageRequest → Url → List CrawlCommand
  wanted get pr u = plain_command "GET" pr u ∷ []
  wanted head pr u = plain_command "HEAD" pr u ∷ []
  wanted builtinjs pr u = js_command w path_escape query_escape "crawljs-builtinjs" pr u ∷ []
  wanted jscript pr u = js_command w path_escape query_escape "crawljs-jscript" pr u ∷ []
  wanted (other n) pr u = []

  pub wanted_at : PageReqType → PageRequest → Result Url → List CrawlCommand
  wanted_at t pr (val u) = wanted t pr u
  wanted_at t pr (err e) = []

  -- The commands that a list of requests asks for, in order.
  pub commands : List PageRequest → List CrawlCommand
  commands [] = []
  commands (pr ∷ prs) = wanted_at pr.reqtype pr (w.parse_url pr.url) ++ commands prs

  pub commands_none : commands [] ≡ []
  unfolding commands
  commands_none = refl

  pub commands-append :
      (prs qrs : List PageRequest) → commands (prs ++ qrs) ≡ commands prs ++ commands qrs
  unfolding commands
  commands-append [] qrs = refl
  commands-append (pr ∷ prs) qrs =
      ap (λ cs. wanted_at pr.reqtype pr (w.parse_url pr.url) ++ cs) (commands-append prs qrs)
      ∙ sym (
          append_assoc (wanted_at pr.reqtype pr (w.parse_url pr.url)) (commands prs) (commands qrs))

  -- A request that ends the goroutine: its URL does not parse, or the queue refuses its command.
  abbrev pub Ends : PageReqType → Job → PageRequest → Type 0
  Ends t j pr =
      ((e : String) × (w.parse_url pr.url ≡ err e))
      ⊎ ((u : Url) × (cmd : CrawlCommand) × (e : String) × (w.parse_url pr.url ≡ val u)
          × (wanted t pr u ≡ cmd ∷ [])
          × (w.queue_send j.queue cmd ≡ some e))

  abbrev pub with_commands : Job → List CrawlCommand → Job
  with_commands j cmds = record j { queue = j.queue ++ cmds }

  abbrev enqueued : PageReqType → PageRequest → Job → Job × Bool
  enqueued t pr j =
      enqueue_command w path_escape query_escape (request_command w path_escape query_escape t pr) j

  abbrev TakeCases : PageReqType → PageRequest → Job → Type 0
  TakeCases t pr j =
      (enqueued t pr j ≡ (with_commands j (wanted_at t pr (w.parse_url pr.url)), true))
      ⊎ (Ends t j pr × (enqueued t pr j ≡ (j, false)))

  failing :
      (t : PageReqType) (pr : PageRequest) (j : Job) {e : String}
      → w.parse_url pr.url ≡ err e
      → request_command w path_escape query_escape t pr ≡ some (err e)
      → TakeCases t pr j
  unfolding enqueue_command
  failing t pr j {e} bad same = inr (inl (e, bad), rw same refl)

  sending :
      (t : PageReqType) (pr : PageRequest) (j : Job) (u : Url) (cmd : CrawlCommand)
      → w.parse_url pr.url ≡ val u
      → wanted t pr u ≡ cmd ∷ []
      → request_command w path_escape query_escape t pr ≡ some (val cmd)
      → TakeCases t pr j
  unfolding enqueue_command send_command wanted_at
  sending t pr j u cmd parsed one same = elim (Option-cases (w.queue_send j.queue cmd)) [
    | inl fine ↦
        inl (rw (same, enqueue_command, send_command, fine) (rw (parsed, wanted_at, one) refl))
    | inr (e, refused) ↦ inr (
      inr (u, cmd, e, parsed, one, refused),
      rw (same, enqueue_command, send_command, refused) refl,
    )
  ]

  take_cases : (t : PageReqType) (pr : PageRequest) (j : Job) → TakeCases t pr j
  unfolding request_command new_crawl_command new_js_command wanted plain_command wanted_at
      enqueue_command
  take_cases get pr j = elim (Result-cases (w.parse_url pr.url)) [
    | inl (e, bad) ↦ failing get pr j bad (rw (new_crawl_command, bad) refl)
    | inr (u, parsed) ↦ sending get pr j u _ parsed refl (rw (new_crawl_command, parsed) refl)
  ]
  take_cases head pr j = elim (Result-cases (w.parse_url pr.url)) [
    | inl (e, bad) ↦ failing head pr j bad (rw (new_crawl_command, bad) refl)
    | inr (u, parsed) ↦ sending head pr j u _ parsed refl (rw (new_crawl_command, parsed) refl)
  ]
  take_cases builtinjs pr j = elim (Result-cases (w.parse_url pr.url)) [
    | inl (e, bad) ↦ failing builtinjs pr j bad (rw (new_js_command, bad) refl)
    | inr (u, parsed) ↦ sending builtinjs pr j u _ parsed refl (rw (new_js_command, parsed) refl)
  ]
  take_cases jscript pr j = elim (Result-cases (w.parse_url pr.url)) [
    | inl (e, bad) ↦ failing jscript pr j bad (rw (new_js_command, bad) refl)
    | inr (u, parsed) ↦ sending jscript pr j u _ parsed refl (rw (new_js_command, parsed) refl)
  ]
  take_cases (other n) pr j = inl (nothing (w.parse_url pr.url))
    where
      nothing :
          (r : Result Url)
          → ◌≡◌ {A = Job × Bool} (j, true) (with_commands j (wanted_at (other n) pr r), true)
      nothing (val u) = rw append-nil refl
      nothing (err e) = rw append-nil refl

  -- How far the requests are taken: all of them, or up to one that ends the goroutine.
  abbrev pub Takes : List PageRequest → Job → Job × List PageRequest → Type 0
  Takes prs j (j', left) =
      ((left ≡ []) × (j' ≡ with_commands j (commands prs)))
      ⊎ ((before : List PageRequest) × (bad : PageRequest) × (prs ≡ before ++ bad ∷ left)
          × (j' ≡ with_commands j (commands before))
          × Ends bad.reqtype j' bad)

  abbrev first : PageRequest → List CrawlCommand
  first pr = wanted_at pr.reqtype pr (w.parse_url pr.url)

  further :
      (pr : PageRequest) (prs : List PageRequest) (j : Job) (r : Job × List PageRequest)
      → Takes prs (with_commands j (first pr)) r
      → Takes (pr ∷ prs) j r
  unfolding commands
  further pr prs j (j', left) (inl (all, e)) = inl (all, e ∙ joined prs)
    where
      joined :
          (ps : List PageRequest)
          → with_commands (with_commands j (first pr)) (commands ps)
            ≡ with_commands j (first pr ++ commands ps)
      joined ps = ap (λ q. record j { queue = q }) (append_assoc j.queue (first pr) (commands ps))
  further pr prs j (j', left) (inr (before, bad, split, e, ends)) = inr (
    pr ∷ before,
    bad,
    ap (◌∷◌ pr) split,
    e ∙ ap (λ q. record j { queue = q }) (append_assoc j.queue (first pr) (commands before)),
    ends,
  )

  -- The page requests of a job put the commands that they ask for into the queue, in the order in
  -- which they come, and change nothing else of the job; the URLs that are known play no part. This
  -- goes on up to the first request whose URL does not parse or whose command the queue refuses:
  -- those after it are never taken.
  pub handle_pages-Takes :
      (prs : List PageRequest) (j : Job)
      → Takes prs j (handle_pages w path_escape query_escape prs j)
  unfolding handle_pages take_request commands
  handle_pages-Takes [] j = inl (refl, rw append-nil refl)
  handle_pages-Takes (pr ∷ prs) j = elim (take_cases pr.reqtype pr j) [
    | inr (ends, same) ↦ rw same (inr ([], pr, refl, rw append-nil refl, ends))
    | inl same ↦ rw same (
        further pr prs j (handle_pages w path_escape query_escape prs (with_commands j (first pr)))
          (handle_pages-Takes prs (with_commands j (first pr))))
  ]
