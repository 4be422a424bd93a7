-- ===== src/Fetch/Links/Coverage.antt =====
-- `enqueueLinks` of job.go loses no link that it should follow.
use mathlib.Core.List.{Memᴰ}
use ideacrawler.Prelude.{
  String, Bool, true, false, List, [], ◌∷◌, none, val, ok, ◌≡◌, refl, arith, Bool-cases, inl, inr,
  str_eq_refl, ◌↔◌, ◌⊎◌,
}
use ideacrawler.Prelude.Dict.{Dict, marked, mark, marked-mark}
use ideacrawler.Job.{Job, Url, CrawlCommand}
use ideacrawler.Web.{Web, Link}
use ideacrawler.Fetch.Links.{
  Scan, Page, misses, check_enqueue_eligibility, link_command, normalized, new_link, see, seen_link,
  link_step, scan_links, start_scan, enqueue_links,
}
use ideacrawler.Fetch.Links.Reporting.{GetsRidOfList, enqueue_links-Returns_iff}
use ideacrawler.Fetch.Links.Effect.{Effect, skips, refuses, sends, link_step-Effect}
use ideacrawler.Fetch.Links.Dedup.{Grows, Grows-mark}
use ideacrawler.Fetch.Links.History.{enqueue_links-duplicates}

-- A link is dropped exactly when its URL misses the follow regexp and, besides, its URL misses the
-- callback regexp or its text misses the anchor text regexp; an absent regexp is never missed.
pub check_enqueue_eligibility-false_iff :
    (j : Job) (nurl text : String)
    → (check_enqueue_eligibility j nurl text ≡ false) ↔ (
        (misses j.follow_url_regexp nurl ≡ true)
        × ((misses j.callback_url_regexp nurl ≡ true)
            ⊎ (misses j.callback_anchor_text_regexp text ≡ true)))
unfolding check_enqueue_eligibility
check_enqueue_eligibility-false_iff j nurl text = ground arith

marked-mark_self : (k : String) (d : Dict Bool) → marked k (mark k d) ≡ true
marked-mark_self k d = rw (marked-mark k k d, str_eq_refl k) refl

module _ (w : Web) (j : Job) (pg : Page) where
  Effect-Grows : (l : Link) (s t : Scan) → Effect w j pg l s t → Grows s.duplicates t.duplicates
  Effect-Grows l s t (skips d q e) = rw d (λ k m. m)
  Effect-Grows l s t (refuses nurl d q e) = rw d (Grows-mark nurl _ _ (λ k m. m))
  Effect-Grows l s t (sends raw u parsed nurl at same f n g p d q e) =
      rw d (Grows-mark nurl _ _ (λ k m. m))

  scan_links-Grows :
      (ls : List Link) (s : Scan) → Grows s.duplicates (scan_links w j pg ls s).duplicates
  unfolding scan_links
  scan_links-Grows [] s k m = m
  scan_links-Grows (l ∷ ls) s k m =
      scan_links-Grows ls _ k (Effect-Grows l s _ (link_step-Effect w j pg l s) k m)

  module _ (accepts : (q : List CrawlCommand) (c : CrawlCommand) → w.queue_send q c ≡ none) where
    new_link-marks :
        (u parsed : Url) (nurl text : String) (s : Scan)
        → w.parse_url nurl ≡ val parsed
        → marked nurl (new_link w j pg u nurl text s).duplicates ≡ true
    unfolding new_link
    new_link-marks u parsed nurl text s e = ground (
      arith,
      accepts s.queue (link_command w j pg parsed text),
      marked-mark_self nurl s.duplicates,
    )

    seen_link-marks :
        (u parsed : Url) (nurl text : String) (s : Scan)
        → check_enqueue_eligibility j nurl text ≡ true
        → w.parse_url nurl ≡ val parsed
        → marked nurl (seen_link w j pg u nurl text s).duplicates ≡ true
    unfolding seen_link
    seen_link-marks u parsed nurl text s eligible e =
        rw eligible (elim (Bool-cases (marked nurl s.duplicates)) [
          | inl old ↦ rw old old
          | inr fresh ↦ rw fresh (new_link-marks u parsed nurl text s e)
        ])

    link_step-marks :
        (l : Link) (raw parsed : Url) (s : Scan)
        → w.resolve pg.request_url l.href ≡ val raw
        → check_enqueue_eligibility j (normalized w j pg raw).1 (w.trim_space l.text) ≡ true
        → w.parse_url (normalized w j pg raw).1 ≡ val parsed
        → marked (normalized w j pg raw).1 (link_step w j pg l s).duplicates ≡ true
    unfolding link_step
    link_step-marks l raw parsed s at eligible e =
        rw (at, link_step)
          (seen_link-marks (normalized w j pg raw).0 parsed (normalized w j pg raw).1
            (w.trim_space l.text) (see w j pg (normalized w j pg raw).1 s) eligible e)

    scan_links-marks :
        (l : Link) (raw parsed : Url) (ls : List Link) (s : Scan)
        → Memᴰ l ls
        → w.resolve pg.request_url l.href ≡ val raw
        → check_enqueue_eligibility j (normalized w j pg raw).1 (w.trim_space l.text) ≡ true
        → w.parse_url (normalized w j pg raw).1 ≡ val parsed
        → marked (normalized w j pg raw).1 (scan_links w j pg ls s).duplicates ≡ true
    unfolding scan_links
    scan_links-marks l raw parsed [] s m at eligible e = elim m [ ]
    scan_links-marks l raw parsed (x ∷ ls) s (Memᴰ.head same) at eligible e =
        scan_links-Grows ls _ _ (rw (← same) (link_step-marks l raw parsed s at eligible e))
    scan_links-marks l raw parsed (x ∷ ls) s (Memᴰ.tail m) at eligible e =
        scan_links-marks l raw parsed ls _ m at eligible e

    -- While the queue takes commands, and no client listens for the URLs that are reported, a stop
    -- signal is taken instead, or the open channel for them has room, the handling of a page's links
    -- returns, and every link of the page that resolves, is eligible and whose normalized URL parses
    -- is known to the job from then on.
    pub enqueue_links-marks :
        (ps : Bool) (links : List Link) (l : Link) (raw parsed : Url)
        → GetsRidOfList ps j
        → Memᴰ l links
        → w.resolve pg.request_url l.href ≡ val raw
        → check_enqueue_eligibility j (normalized w j pg raw).1 (w.trim_space l.text) ≡ true
        → w.parse_url (normalized w j pg raw).1 ≡ val parsed
        → (j' : Job) × (enqueue_links w ps pg links j ≡ ok j')
          × (marked (normalized w j pg raw).1 j'.duplicates ≡ true)
    enqueue_links-marks ps links l raw parsed rid m at eligible e =
        let (j', run) = (enqueue_links-Returns_iff w ps pg links j).1 rid in
        (
          j',
          run,
          rw (enqueue_links-duplicates w ps pg links j j' run)
              (scan_links-marks l raw parsed links (start_scan j) m at eligible e),
        )
