-- ===== src/Fetch/Tests.antt =====
-- A small site, and the theorems on the handlers of job.go at it.
use mathlib.Core.List.{Memᴰ}
use ideacrawler.Prelude.{
  String, Bool, true, false, List, [], ◌∷◌, ◌++◌, some, ok, val, inr, ◌≡◌, ◌↔◌, refl, arith, str_eq,
  has_prefix,
}
use ideacrawler.Prelude.Int.{pos, inc32, int32}
use ideacrawler.Prelude.Dict.{marked, mark, insert, lookup}
use ideacrawler.Proto.{PageHtml}
use ideacrawler.Job.{Job, CrawlCommand, send_page_html, lose_client, request_cancel}
use ideacrawler.Web.{Link, Response}
use ideacrawler.Samples.{site_url, link, site, seed_command, client, start_job}
use ideacrawler.Fetch.Links.{
  Page, check_enqueue_eligibility, link_step, scan_links, start_scan, enqueue_links, send_report,
}
use ideacrawler.Fetch.{
  callback_page, xpath_filter, xpaths_match, ship_page, shipping_url, follows_links, follow_links,
  still_logged_in, after_login, handle_body, after_read, fetch_http_get_handler, page_of,
  get_command,
}
use ideacrawler.Prelude.Chan.{make}
use ideacrawler.Fetch.Links.Reporting.{GetsRidOfList}
use ideacrawler.Fetch.Links.Targets.{Targets, enqueue_links-Targets}
use ideacrawler.Fetch.Links.Coverage.{enqueue_links-marks}
use ideacrawler.Fetch.Links.History.{enqueued_by, begin, page, OnceEver, History-OnceEver}
use ideacrawler.Fetch.Depth.{Limited, got, here, next, Reach-Limited, follows_links-get_command}
use ideacrawler.Fetch.Queueing.{Queues, fetch_http_get_handler-Queues}
use ideacrawler.Fetch.Shipping.{Ships, fetch_http_get_handler-Ships}
use ideacrawler.Fetch.Callback.{Wanted, callback_page-Wanted}

crawl : Unit {0}
unfolding fetch_http_get_handler after_read handle_body after_login still_logged_in follow_links
    follows_links ship_page callback_page xpath_filter xpaths_match shipping_url enqueue_links
    scan_links link_step send_report check_enqueue_eligibility marked mark insert lookup
    send_page_html lose_client request_cancel inc32 int32 has_prefix
crawl = tt

abbrev front : Response
front = record {
  request_url = site_url "/";
  status_code = pos 200;
  status = "200 OK";
  body = val "hi";
}

abbrev followed_command : String → CrawlCommand
followed_command p = record {
  method = "GET";
  url = site_url p;
  no_callback = false;
  meta_str = "m";
  url_depth = pos 1;
  anchor_text = "more";
}

-- The job after the links of the front page, and after the whole response.
abbrev linked_job : Job
linked_job = record start_job {
  duplicates = ("/", true) ∷ ("/a", true) ∷ ("/b", true) ∷ [];
  queue = seed_command ∷ followed_command "/a" ∷ followed_command "/b" ∷ [];
}

abbrev front_page : PageHtml
front_page = record {
  success = true;
  error = "";
  job_id = some (record { id = "job" });
  url = "/";
  httpstatuscode = pos 200;
  content = "hi";
  meta_str = "m";
  url_depth = pos 0;
  anchor_text = "";
}

abbrev shipped_job : Job
shipped_job = record linked_job {
  subscriber = record client {
    send_chan = some (record { cap = 1000; items = front_page ∷ []; closed = false });
  };
}

-- Jobs with a follow and an anchor text regexp, and with a xpath filter.
abbrev picky_job : Job
picky_job = record start_job {
  follow_url_regexp = some (λ s. str_eq s "/b");
  callback_anchor_text_regexp = some (λ s. str_eq s "less");
}

abbrev xpath_job : Job
xpath_job = record start_job {
  opts = record (start_job.opts) {
    callback_xpath_match = record { key = "//h1"; value = "Home" } ∷ [];
  };
}

links_followed :
    enqueue_links site false
      (page_of seed_command front)
      (link "/a" ∷ link "/a" ∷ link "/b" ∷ [])
      start_job
    ≡ ok linked_job
unfolding crawl
links_followed = refl

front_handled : fetch_http_get_handler site false seed_command front start_job ≡ ok shipped_job
unfolding crawl
front_handled = refl

-- The history of the front page and of a second visit to it, which adds nothing.
abbrev links : List Link
links = link "/a" ∷ link "/a" ∷ link "/b" ∷ []

abbrev front_links : Page
front_links = page_of seed_command front

second_visit : enqueue_links site false front_links links linked_job ≡ ok linked_job
unfolding crawl
second_visit = refl

History-OnceEver_example : OnceEver start_job.duplicates linked_job.duplicates (
    ([] ++ enqueued_by site start_job front_links links)
    ++ enqueued_by site linked_job front_links links)
History-OnceEver_example =
    History-OnceEver site start_job (
      page false front_links links (page false front_links links begin links_followed) second_visit)

enqueued_urls :
    (enqueued_by site start_job front_links links ≡ "/a" ∷ "/b" ∷ [])
    × (enqueued_by site linked_job front_links links ≡ [])
unfolding crawl
enqueued_urls = (refl, refl)

Reach-Limited_example : Limited 2 shipped_job
Reach-Limited_example =
    Reach-Limited site 2 (omega arith)
      (record { limit_set = refl; within = ((0, refl, omega arith), tt) })
      (next here (got false seed_command front (Memᴰ.head refl) front_handled))

follows_links-get_command_example :
    follows_links site start_job (get_command (record seed_command { url_depth = pos 7 })) ≡ true
follows_links-get_command_example =
    follows_links-get_command site start_job (record seed_command { url_depth = pos 7 }) 2 refl
      (omega arith)

fetch_http_get_handler-Ships_example : Ships site false seed_command front start_job shipped_job
fetch_http_get_handler-Ships_example =
    fetch_http_get_handler-Ships site false seed_command front start_job shipped_job front_handled

fetch_http_get_handler-Queues_example : Queues site false seed_command front start_job shipped_job
fetch_http_get_handler-Queues_example =
    fetch_http_get_handler-Queues site false seed_command front start_job shipped_job front_handled

-- A job whose client listens for the lists of URLs.
abbrev listened_job : Job
listened_job = record start_job {
  subscriber = record client {
    analyzed_url_chan = some (make 1000);
    analyzed_url_connected = true;
  };
}

list_taken : GetsRidOfList false listened_job
list_taken = inr (inr (inr (make 1000, refl, refl, refl)))

enqueue_links-Targets_example :
    (j : Job) × (enqueue_links site false front_links links listened_job ≡ ok j)
    × (cmds : List CrawlCommand) × (j.queue ≡ listened_job.queue ++ cmds)
    × Targets site listened_job front_links links
        (scan_links site listened_job front_links links (start_scan listened_job)).enqueued
        cmds
enqueue_links-Targets_example =
    enqueue_links-Targets site false front_links links listened_job list_taken

enqueue_links-marks_example :
    (j : Job) × (enqueue_links site false front_links links listened_job ≡ ok j)
    × (marked "/b" j.duplicates ≡ true)
unfolding crawl
enqueue_links-marks_example =
    enqueue_links-marks site listened_job front_links (λ q c. refl) false links (link "/b")
      (site_url "/b") (site_url "/b") list_taken (Memᴰ.tail (Memᴰ.tail (Memᴰ.head refl))) refl refl
      refl

picky_drops : check_enqueue_eligibility picky_job "/a" "more" ≡ false
unfolding check_enqueue_eligibility
picky_drops = refl

-- A page that a xpath filter lets through.
callback_page-Wanted_example :
    (b : Bool) × (callback_page site xpath_job (followed_command "/a") "hi" ≡ ok b)
    × ((b ≡ true) ↔ Wanted site "hi" xpath_job (followed_command "/a"))
callback_page-Wanted_example =
    callback_page-Wanted site "hi" xpath_job (followed_command "/a") (("Home", refl), tt) tt

xpath_page_wanted : callback_page site xpath_job (followed_command "/a") "hi" ≡ ok true
unfolding crawl
xpath_page_wanted = refl
