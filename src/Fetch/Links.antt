-- ===== src/Fetch/Links.antt =====
-- `checkEnqueueEligibility` and `enqueueLinks` of job.go.
pub mod Dedup
pub mod Coverage
pub mod History
pub mod Targets
pub mod Reporting
pub mod Effect
use ideacrawler.Prelude.{
  String, Bool, true, false, not, ◌&&◌, ◌||◌, Option, none, some, List, [], ◌∷◌, ◌++◌, map, Outcome,
  ok, ◌>>=◌, val, err, if◌then◌else◌, str_eq,
}
use ideacrawler.Prelude.Int.{ℤ}
use ideacrawler.Prelude.Dict.{Dict, marked, mark}
use ideacrawler.Prelude.Chan.{can_recv, can_send, recv_rest, send}
use ideacrawler.Proto.{UrlList}
use ideacrawler.Job.{Job, Url, CrawlCommand, Regexp}
use ideacrawler.Web.{Web, Link}

-- `re != nil && re.MatchString(s) == false`
abbrev pub misses : Option Regexp → String → Bool
misses none s = false
misses (some re) s = not (re s)

unfoldable pub check_enqueue_eligibility : Job → String → String → Bool
check_enqueue_eligibility j nurl anchor_text =
    let req_match =
      not (misses j.callback_url_regexp nurl || misses j.callback_anchor_text_regexp anchor_text) in
    let follow_match = not (misses j.follow_url_regexp nurl) in
    if not req_match && not follow_match then false else true

-- What the loop over the links changes: the job's duplicates, the page's own URLs, the queue. Beside
-- them the URLs that it logs as enqueued, without those whose send failed.
pub record Scan : Type 0 where
  pub duplicates : Dict Bool
  pub url_map : Dict Bool
  pub queue : List CrawlCommand
  pub enqueued : List String

-- What all links of one page share.
pub record Page : Type 0 where
  pub request_url : Url
  pub meta_str : String
  pub url_depth : ℤ

abbrev link_url : Bool → Url → Url
link_url drop_query u = if drop_query then record u { raw_query = "" } else u

module _ (w : Web) (j : Job) (pg : Page) where
  abbrev pub send_method : String
  send_method = if j.opts.check_content then "HEAD" else "GET"

  abbrev pub link_command : Url → String → CrawlCommand
  link_command u anchor_text = record {
    method = send_method;
    url = u;
    no_callback = false;
    meta_str = pg.meta_str;
    url_depth = pg.url_depth;
    anchor_text = anchor_text;
  }

  -- The URL text of a link and the host that the domain test sees, after the normalization.
  abbrev pub normalized : Url → Url × String
  normalized u =
      w.normalize_url j.opts.unsafe_normalize_url (link_url j.opts.unsafe_normalize_url u)

  abbrev pub off_domain : Url → Bool
  off_domain u =
      not (str_eq j.opts.seed_url "")
      && (not j.opts.follow_other_domains && not (str_eq (w.hostname u) j.domainname))

  send_link : String → CrawlCommand → Scan → Scan
  send_link nurl cmd s = elim (w.queue_send s.queue cmd) [
    | some error ↦ s
    | none ↦ record s {
      duplicates = mark nurl s.duplicates;
      queue = s.queue ++ cmd ∷ [];
      enqueued = s.enqueued ++ nurl ∷ [];
    }
  ]

  new_link : Url → String → String → Scan → Scan
  unfolding send_link
  new_link u nurl anchor_text s =
      if off_domain u
      then record s { duplicates = mark nurl s.duplicates }
      else elim (w.parse_url nurl) [
        | err error ↦ s
        | val parsed ↦ send_link nurl (link_command parsed anchor_text) s
      ]

  -- `urlMap[nurl] = true`, if the client asked for the analyzed URLs.
  see : String → Scan → Scan
  see nurl s =
      if j.subscriber.analyzed_url_connected then record s { url_map = mark nurl s.url_map } else s

  seen_link : Url → String → String → Scan → Scan
  unfolding new_link
  seen_link u nurl anchor_text s =
      if not (check_enqueue_eligibility j nurl anchor_text)
      then s
      else if marked nurl s.duplicates
      then s
      else new_link u nurl anchor_text s

  -- The function given to `Each`.
  unfoldable pub link_step : Link → Scan → Scan
  unfolding see seen_link
  link_step l s = elim (w.resolve pg.request_url l.href) [
    | err error ↦ s
    | val u ↦ let (v, nurl) = normalized u in seen_link v nurl (w.trim_space l.text) (see nurl s)
  ]

  unfoldable pub scan_links : List Link → Scan → Scan
  scan_links [] s = s
  scan_links (l ∷ ls) s = scan_links ls (link_step l s)

abbrev pub keys : Dict Bool → List String
keys = map (λ e. e.0)

-- The report of the page's URLs. A Go map is ranged over in any order; here it is that of insertion.
abbrev pub report : Page → Dict Bool → UrlList
report pg urls = record { url = keys urls; meta_str = pg.meta_str; url_depth = pg.url_depth }

unfoldable pub send_report : Bool → UrlList → Job → Outcome Job
send_report prefer_stop list j =
    let sub = j.subscriber in
    if not sub.analyzed_url_connected
    then ok j
    else if not sub.connected
    then ok j
    else if can_recv sub.stop_analyzed_url_chan
        && (prefer_stop || not (can_send sub.analyzed_url_chan))
    then ok (record j {
      subscriber = record sub {
        stop_analyzed_url_chan = recv_rest sub.stop_analyzed_url_chan;
        analyzed_url_connected = false;
      };
    })
    else (send sub.analyzed_url_chan list >>= λ c.
        ok (record j { subscriber = record sub { analyzed_url_chan = c } }))

abbrev pub start_scan : Job → Scan
start_scan j = record { duplicates = j.duplicates; url_map = []; queue = j.queue; enqueued = [] }

unfoldable pub enqueue_links : Web → Bool → Page → List Link → Job → Outcome Job
enqueue_links w prefer_stop pg links j =
    let s = scan_links w j pg links (start_scan j) in
    send_report prefer_stop (report pg s.url_map)
      (record j { duplicates = s.duplicates; queue = s.queue })
