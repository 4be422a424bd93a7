-- ===== src/Fetch/Depth.antt =====
-- How deep the handlers of job.go let a crawl go.
use mathlib.Core.List.{Memᴰ}
use ideacrawler.Prelude.{
  ℕ, suc, ◌≤◌, ◌<◌, String, Bool, true, List, [], ◌∷◌, ◌++◌, ok, ◌≡◌, ◌⊎◌, inl, inr, refl, arith,
  sym, ap, ◌∙◌, All, All-append, if_elim, subst, Ensures-if, Ensures-ok, ensures, ensured, not,
  ◌&&◌,
}
use ideacrawler.Prelude.Int.{pos, inc32, inc32_small, two_31}
use ideacrawler.Job.{Job, CrawlCommand, done, send_page_html}
use ideacrawler.Job.Sending.{send_page_html-keeps}
use ideacrawler.Web.{Link, Web, Response}
use ideacrawler.Fetch.Links.{Page, misses}
use ideacrawler.Fetch.Links.Targets.{Targets, nothing, more}
use ideacrawler.Fetch.Queueing.{Queues, stays, follows, fetch_http_get_handler-Queues}
use ideacrawler.Fetch.{
  follows_links, fetch_http_get_handler, fetch_http_head_handler, fetch_error_handler, get_command,
  take_command, page_of, error_page,
}

-- The command's depth is at most `n`.
abbrev pub Within : ℕ → CrawlCommand → Type 0
Within n c = (d : ℕ) × (c.url_depth ≡ pos d) × (d ≤ n)

follows_links-lt :
    (w : Web) (j : Job) (cmd : CrawlCommand) (limit d : ℕ)
    → follows_links w j cmd ≡ true
    → j.opts.depth ≡ pos limit
    → cmd.url_depth ≡ pos d
    → d < limit
unfolding follows_links
follows_links-lt w j cmd limit d f e q = ground arith

Targets-Within :
    (w : Web) (j : Job) (pg : Page) (n d : ℕ) {links : List Link} {urls : List String}
    {cmds : List CrawlCommand}
    → Targets w j pg links urls cmds
    → pg.url_depth ≡ pos d
    → d ≤ n
    → All (Within n) cmds
Targets-Within w j pg n d nothing e h = tt
Targets-Within w j pg n d (more t ts) e h = ((d, t.depth ∙ e, h), Targets-Within w j pg n d ts e h)

-- What a step of the crawl keeps: the limit, and that no command of the queue is deeper.
pub record Limited (limit : ℕ) (j : Job) : Type 0 where
  pub limit_set : j.opts.depth ≡ pos limit
  pub within : All (Within limit) j.queue

fetch_http_get_handler-Limited :
    (w : Web) (ps : Bool) (cmd : CrawlCommand) (res : Response) (j j' : Job) (limit : ℕ)
    → limit < two_31
    → Within limit cmd
    → Limited limit j
    → fetch_http_get_handler w ps cmd res j ≡ ok j'
    → Limited limit j'
fetch_http_get_handler-Limited w ps cmd res j j' limit small (d, e, _) l h =
    cases (fetch_http_get_handler-Queues w ps cmd res j j' h)
  where
    cases : Queues w ps cmd res j j' → Limited limit j'
    cases (stays q o) = record {
      limit_set = ap (λ r. r.depth) o ∙ l.limit_set;
      within = rw q l.within;
    }
    cases (follows body links cmds r f found q t o) =
        let below = follows_links-lt w j cmd limit d f l.limit_set e in
        record {
          limit_set = ap (λ r. r.depth) o ∙ l.limit_set;
          within = rw q (
              All-append (Within limit) j.queue cmds l.within (
                Targets-Within w j (page_of cmd res) limit (suc d) t
                  (ap inc32 e ∙ inc32_small d (omega arith)) below));
        }

take_command-cases :
    (w : Web) (j : Job) (cmd : CrawlCommand)
    → (take_command w j cmd ≡ j) ⊎ (take_command w j cmd ≡ record j { queue = j.queue ++ cmd ∷ [] })
unfolding take_command
take_command-cases w j cmd = ground arith

take_command-Limited :
    (w : Web) (cmd : CrawlCommand) (j : Job) (limit : ℕ)
    → Within limit cmd
    → Limited limit j
    → Limited limit (take_command w j cmd)
take_command-Limited w cmd j limit h l = elim (take_command-cases w j cmd) [
  | inl e ↦ subst (Limited limit) (sym e) l
  | inr e ↦ subst (Limited limit) (sym e) (record {
    limit_set = l.limit_set;
    within = All-append (Within limit) j.queue (cmd ∷ []) l.within (h, tt);
  })
]

fetch_http_head_handler-Limited :
    (w : Web) (cmd : CrawlCommand) (j : Job) (limit : ℕ)
    → Limited limit j
    → Limited limit (fetch_http_head_handler w cmd j)
unfolding fetch_http_head_handler
fetch_http_head_handler-Limited w cmd j limit l =
    if_elim (Limited limit) (done j) j (take_command w j (get_command cmd)) l
      (take_command-Limited w (get_command cmd) j limit (0, refl, omega arith) l)

-- One event of a crawl: a response to a command of the queue, by method, or a command for a seed or
-- for a page that the client asks for, which starts at depth 0.
pub data Step (w : Web) (j : Job) : Job → Type 0 where
  got :
      {j' : Job} (ps : Bool) (cmd : CrawlCommand) (res : Response)
      → Memᴰ cmd j.queue
      → fetch_http_get_handler w ps cmd res j ≡ ok j'
      → Step w j j'
  headed : (cmd : CrawlCommand) → Memᴰ cmd j.queue → Step w j (fetch_http_head_handler w cmd j)
  failed :
      {j' : Job} (ps : Bool) (cmd : CrawlCommand) (error : String)
      → fetch_error_handler w ps cmd error j ≡ ok j'
      → Step w j j'
  asked : (cmd : CrawlCommand) → cmd.url_depth ≡ pos 0 → Step w j (take_command w j cmd)

pub data Reach (w : Web) (j : Job) : Job → Type 0 where
  here : Reach w j j
  next : {k l : Job} → Reach w j k → Step w k l → Reach w j l

All-mem :
    (limit : ℕ) (c : CrawlCommand) (cs : List CrawlCommand)
    → Memᴰ c cs
    → All (Within limit) cs
    → Within limit c
All-mem limit c [] m a = elim m [ ]
All-mem limit c (x ∷ cs) (Memᴰ.head e) a = subst (Within limit) (sym e) a.0
All-mem limit c (x ∷ cs) (Memᴰ.tail m) a = All-mem limit c cs m a.1

fetch_error_handler-Limited :
    (w : Web) (ps : Bool) (cmd : CrawlCommand) (error : String) (j j' : Job) (limit : ℕ)
    → Limited limit j
    → fetch_error_handler w ps cmd error j ≡ ok j'
    → Limited limit j'
unfolding fetch_error_handler
fetch_error_handler-Limited w ps cmd error j j' limit l h =
    ensured (Limited limit) _
      (Ensures-if (Limited limit) (done j) (ok j) _ (λ _. Ensures-ok (Limited limit) j l)
        (λ _. ensures (Limited limit) _ sent))
      h
  where
    sent : (k : Job) → send_page_html ps true (error_page w cmd error) j ≡ ok k → Limited limit k
    sent k e =
        let (q, _, o) = send_page_html-keeps ps true (error_page w cmd error) j k e in
        record { limit_set = ap (λ r. r.depth) o ∙ l.limit_set; within = rw q l.within }

Step-Limited :
    (w : Web) (limit : ℕ) {j j' : Job}
    → limit < two_31
    → Step w j j'
    → Limited limit j
    → Limited limit j'
Step-Limited w limit {j} {j'} small (got ps cmd res m h) l =
    fetch_http_get_handler-Limited w ps cmd res j j' limit small (All-mem limit cmd _ m l.within) l
      h
Step-Limited w limit {j} small (headed cmd m) l = fetch_http_head_handler-Limited w cmd j limit l
Step-Limited w limit {j} {j'} small (failed ps cmd error h) l =
    fetch_error_handler-Limited w ps cmd error j j' limit l h
Step-Limited w limit {j} small (asked cmd e) l =
    take_command-Limited w cmd j limit (0, e, omega arith) l

-- With a depth limit set, an int32 that is not negative, no command deeper than that ever enters the
-- queue, whatever responses come and whatever pages the client asks for.
pub Reach-Limited :
    (w : Web) (limit : ℕ) {j j' : Job}
    → limit < two_31
    → Limited limit j
    → Reach w j j'
    → Limited limit j'
Reach-Limited w limit small l here = l
Reach-Limited w limit small l (next r s) =
    Step-Limited w limit small s (Reach-Limited w limit small l r)

-- After a HEAD response, as `checkContent` asks for on every link, a limit above 0 no longer stops
-- anything: whatever the depth of the command was, the page that follows is followed itself unless
-- the job follows no links or the page's URL misses the follow regexp.
pub follows_links-get_command :
    (w : Web) (j : Job) (cmd : CrawlCommand) (limit : ℕ)
    → j.opts.depth ≡ pos limit
    → 0 < limit
    → follows_links w j (get_command cmd)
      ≡ (not j.opts.no_follow && not (misses j.follow_url_regexp (w.url_string cmd.url)))
unfolding follows_links
follows_links-get_command w j cmd limit e h = ground arith
