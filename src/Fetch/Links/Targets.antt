-- ===== src/Fetch/Links/Targets.antt =====
-- Which commands `enqueueLinks` of job.go adds to the queue.
use ideacrawler.Prelude.{
  String, Bool, true, false, List, [], ◌∷◌, ◌++◌, val, ok, ◌≡◌, refl, arith, sym, ◌∙◌,
}
use mathlib.Core.List.{append-nil, append_assoc, Memᴰ}
use ideacrawler.Proto.{UrlList}
use ideacrawler.Job.{Job, Url, CrawlCommand}
use ideacrawler.Web.{Web, Link}
use ideacrawler.Fetch.Links.{
  Scan, Page, check_enqueue_eligibility, normalized, send_method, link_command, off_domain,
  link_step, scan_links, start_scan, send_report, enqueue_links,
}
use ideacrawler.Fetch.Links.Reporting.{GetsRidOfList, enqueue_links-Returns_iff}
use ideacrawler.Fetch.Links.Effect.{Effect, skips, refuses, sends, link_step-Effect}

-- The command `cmd` for the URL text `nurl`: what the job's options ask of it.
pub record Target (w : Web) (j : Job) (pg : Page) (links : List Link) (nurl : String)
    (cmd : CrawlCommand) : Type 0 where
  pub parsed : w.parse_url nurl ≡ val cmd.url
  pub method : cmd.method ≡ send_method w j pg
  pub depth : cmd.url_depth ≡ pg.url_depth
  pub meta : cmd.meta_str ≡ pg.meta_str
  pub called_back : cmd.no_callback ≡ false
  pub eligible : check_enqueue_eligibility j nurl cmd.anchor_text ≡ true
  -- The link of the page that it comes from, and the URL of that before and after normalization.
  pub link : Link
  pub of_page : Memᴰ link links
  pub raw : Url
  pub host : Url
  pub resolved : w.resolve pg.request_url link.href ≡ val raw
  pub same : normalized w j pg raw ≡ (host, nurl)
  pub anchor : cmd.anchor_text ≡ w.trim_space link.text
  pub near : off_domain w j pg host ≡ false

-- The texts and the commands correspond, in order.
pub data Targets (w : Web) (j : Job) (pg : Page) (links : List Link)
    : List String → List CrawlCommand → Type 0 where
  nothing : Targets w j pg links [] []
  more :
      {urls : List String} {cmds : List CrawlCommand} {nurl : String} {cmd : CrawlCommand}
      → Target w j pg links nurl cmd
      → Targets w j pg links urls cmds
      → Targets w j pg links (nurl ∷ urls) (cmd ∷ cmds)

-- What the loop has added to queue and URLs, from the state `s` to `t`.
pub record Added (w : Web) (j : Job) (pg : Page) (links : List Link) (s t : Scan) : Type 0 where
  pub urls : List String
  pub cmds : List CrawlCommand
  pub queue : t.queue ≡ s.queue ++ cmds
  pub enqueued : t.enqueued ≡ s.enqueued ++ urls
  pub targets : Targets w j pg links urls cmds

module _ (w : Web) (j : Job) (pg : Page) (links : List Link) where
  Targets-append :
      {us vs : List String} {cs ds : List CrawlCommand}
      → Targets w j pg links us cs
      → Targets w j pg links vs ds
      → Targets w j pg links (us ++ vs) (cs ++ ds)
  Targets-append nothing u = u
  Targets-append (more t ts) u = more t (Targets-append ts u)

  Added-refl : (s t : Scan) → t.queue ≡ s.queue → t.enqueued ≡ s.enqueued → Added w j pg links s t
  Added-refl s t q e = record {
    urls = [];
    cmds = [];
    queue = q ∙ sym (append-nil _);
    enqueued = e ∙ sym (append-nil _);
    targets = nothing;
  }

  Added-trans :
      (s t u : Scan) → Added w j pg links s t → Added w j pg links t u → Added w j pg links s u
  Added-trans s t u a b = record {
    urls = a.urls ++ b.urls;
    cmds = a.cmds ++ b.cmds;
    queue = b.queue ∙ rw (a.queue) (append_assoc s.queue a.cmds b.cmds);
    enqueued = b.enqueued ∙ rw (a.enqueued) (append_assoc s.enqueued a.urls b.urls);
    targets = Targets-append a.targets b.targets;
  }

  Effect-Added :
      (l : Link) (s t : Scan) → Memᴰ l links → Effect w j pg l s t → Added w j pg links s t
  Effect-Added l s t from (skips d q e) = Added-refl s t q e
  Effect-Added l s t from (refuses nurl d q e) = Added-refl s t q e
  Effect-Added l s t from (sends raw u parsed nurl at same fresh near eligible p d q e) = record {
    urls = nurl ∷ [];
    cmds = link_command w j pg parsed (w.trim_space l.text) ∷ [];
    queue = q;
    enqueued = e;
    targets = more target nothing;
  }
    where
      target : Target w j pg links nurl (link_command w j pg parsed (w.trim_space l.text))
      target = record {
        parsed = p;
        method = refl;
        depth = refl;
        meta = refl;
        called_back = refl;
        eligible = eligible;
        link = l;
        of_page = from;
        raw = raw;
        host = u;
        resolved = at;
        same = same;
        anchor = refl;
        near = near;
      }

  scan_links-Added :
      (ls : List Link) (s : Scan)
      → ((x : Link) → Memᴰ x ls → Memᴰ x links)
      → Added w j pg links s (scan_links w j pg ls s)
  unfolding scan_links
  scan_links-Added [] s from = Added-refl s s refl refl
  scan_links-Added (l ∷ ls) s from =
      Added-trans s (link_step w j pg l s) _
        (Effect-Added l s _ (from l (Memᴰ.head refl)) (link_step-Effect w j pg l s))
        (scan_links-Added ls (link_step w j pg l s) (λ x m. from x (Memᴰ.tail m)))

send_report-queue :
    (ps : Bool) (list : UrlList) (j j' : Job)
    → send_report ps list j ≡ ok j'
    → (j'.queue ≡ j.queue) × (j'.opts ≡ j.opts)
unfolding send_report
send_report-queue ps list j j' h = ground arith

pub enqueue_links-added :
    (w : Web) (ps : Bool) (pg : Page) (links : List Link) (j j' : Job)
    → enqueue_links w ps pg links j ≡ ok j'
    → (cmds : List CrawlCommand) × (j'.queue ≡ j.queue ++ cmds)
      × Targets w j pg links (scan_links w j pg links (start_scan j)).enqueued cmds
unfolding enqueue_links
enqueue_links-added w ps pg links j j' h =
    let a = scan_links-Added w j pg links links (start_scan j) (λ x m. m) in
    (a.cmds, (send_report-queue ps _ _ j' h).0 ∙ a.queue, rw a.enqueued a.targets)

-- Handling the links of a page returns where no client listens for the URLs it reports, a stop signal
-- is taken instead, or the open channel for them has room. It has then added commands at the end of
-- the queue, one for each URL that it enqueues, in order. Each is for that URL, the normalized URL of
-- one of the links as the page resolves it, with the link's trimmed text, the method, depth and meta string
-- that the page and the job's options ask for, eligible, and on the job's domain where the options
-- demand that.
pub enqueue_links-Targets :
    (w : Web) (ps : Bool) (pg : Page) (links : List Link) (j : Job)
    → GetsRidOfList ps j
    → (j' : Job) × (enqueue_links w ps pg links j ≡ ok j')
      × (cmds : List CrawlCommand) × (j'.queue ≡ j.queue ++ cmds)
      × Targets w j pg links (scan_links w j pg links (start_scan j)).enqueued cmds
enqueue_links-Targets w ps pg links j rid =
    let (j', run) = (enqueue_links-Returns_iff w ps pg links j).1 rid in
    let (cmds, added, targets) = enqueue_links-added w ps pg links j j' run in
    (j', run, cmds, added, targets)

pub enqueue_links-opts :
    (w : Web) (ps : Bool) (pg : Page) (links : List Link) (j j' : Job)
    → enqueue_links w ps pg links j ≡ ok j'
    → j'.opts ≡ j.opts
unfolding enqueue_links
enqueue_links-opts w ps pg links j j' h = (send_report-queue ps _ _ j' h).1
