-- ===== src/Fetch/Links/Effect.antt =====
-- What one round of the loop in `enqueueLinks` of job.go does, as a relation.
use ideacrawler.Prelude.{
  String, Bool, true, false, [], ◌∷◌, ◌++◌, val, ◌≡◌, refl, inl, inr, Bool-cases, Option-cases,
  Result-cases, if◌then◌else◌,
}
use ideacrawler.Prelude.Dict.{marked, mark}
use ideacrawler.Job.{Job, Url}
use ideacrawler.Web.{Web, Link}
use ideacrawler.Fetch.Links.{
  Scan, Page, check_enqueue_eligibility, link_command, normalized, off_domain, send_link, new_link,
  see, seen_link, link_step,
}

-- One of three: nothing but the page's own URLs changes; a link off the job's domain is noted as a
-- duplicate; or the link's command is taken by the queue, and noted.
pub data Effect (w : Web) (j : Job) (pg : Page) (l : Link) (s t : Scan) : Type 0 where
  skips :
      t.duplicates ≡ s.duplicates
      → t.queue ≡ s.queue
      → t.enqueued ≡ s.enqueued
      → Effect w j pg l s t
  refuses :
      (nurl : String)
      → t.duplicates ≡ mark nurl s.duplicates
      → t.queue ≡ s.queue
      → t.enqueued ≡ s.enqueued
      → Effect w j pg l s t
  sends :
      (raw u parsed : Url) (nurl : String)
      → w.resolve pg.request_url l.href ≡ val raw
      → normalized w j pg raw ≡ (u, nurl)
      → marked nurl s.duplicates ≡ false
      → off_domain w j pg u ≡ false
      → check_enqueue_eligibility j nurl (w.trim_space l.text) ≡ true
      → w.parse_url nurl ≡ val parsed
      → t.duplicates ≡ mark nurl s.duplicates
      → t.queue ≡ s.queue ++ link_command w j pg parsed (w.trim_space l.text) ∷ []
      → t.enqueued ≡ s.enqueued ++ nurl ∷ []
      → Effect w j pg l s t

module _ (w : Web) (j : Job) (pg : Page) (l : Link) where
  send_link-Effect :
      (raw u parsed : Url) (nurl : String) (s : Scan)
      → w.resolve pg.request_url l.href ≡ val raw
      → normalized w j pg raw ≡ (u, nurl)
      → marked nurl s.duplicates ≡ false
      → off_domain w j pg u ≡ false
      → check_enqueue_eligibility j nurl (w.trim_space l.text) ≡ true
      → w.parse_url nurl ≡ val parsed
      → Effect w j pg l s
          (send_link w j pg nurl (link_command w j pg parsed (w.trim_space l.text)) s)
  unfolding send_link
  send_link-Effect raw u parsed nurl s at same fresh near eligible e =
      elim (Option-cases
        (w.queue_send s.queue (link_command w j pg parsed (w.trim_space l.text)))) [
          | inl taken ↦
              rw (taken, send_link)
                (sends raw u parsed nurl at same fresh near eligible e refl refl refl)
          | inr (_, refused) ↦ rw (refused, send_link) (skips refl refl refl)
        ]

  new_link-Effect :
      (raw u : Url) (nurl : String) (s : Scan)
      → w.resolve pg.request_url l.href ≡ val raw
      → normalized w j pg raw ≡ (u, nurl)
      → marked nurl s.duplicates ≡ false
      → check_enqueue_eligibility j nurl (w.trim_space l.text) ≡ true
      → Effect w j pg l s (new_link w j pg u nurl (w.trim_space l.text) s)
  unfolding new_link
  new_link-Effect raw u nurl s at same fresh eligible = elim (Bool-cases (off_domain w j pg u)) [
    | inl far ↦ rw far (refuses nurl refl refl refl)
    | inr near ↦ rw near (elim (Result-cases (w.parse_url nurl)) [
      | inl (_, e) ↦ rw (e, new_link) (skips refl refl refl)
      | inr (parsed, e) ↦
          rw (e, new_link) (send_link-Effect raw u parsed nurl s at same fresh near eligible e)
    ])
  ]

  seen_link-Effect :
      (raw u : Url) (nurl : String) (s : Scan)
      → w.resolve pg.request_url l.href ≡ val raw
      → normalized w j pg raw ≡ (u, nurl)
      → Effect w j pg l s (seen_link w j pg u nurl (w.trim_space l.text) s)
  unfolding seen_link
  seen_link-Effect raw u nurl s at same =
      elim (Bool-cases (check_enqueue_eligibility j nurl (w.trim_space l.text))) [
        | inr no_match ↦ rw no_match (skips refl refl refl)
        | inl eligible ↦ rw eligible (elim (Bool-cases (marked nurl s.duplicates)) [
          | inl old ↦ rw old (skips refl refl refl)
          | inr fresh ↦ rw fresh (new_link-Effect raw u nurl s at same fresh eligible)
        ])
      ]

  Effect-see_if :
      (b : Bool) (nurl : String) (s t : Scan)
      → Effect w j pg l (if b then record s { url_map = mark nurl s.url_map } else s) t
      → Effect w j pg l s t
  Effect-see_if true nurl s t (skips d q e) = skips d q e
  Effect-see_if true nurl s t (refuses other d q e) = refuses other d q e
  Effect-see_if true nurl s t (sends raw u parsed other at same f n g p d q e) =
      sends raw u parsed other at same f n g p d q e
  Effect-see_if false nurl s t e = e

  Effect-see :
      (nurl : String) (s t : Scan) → Effect w j pg l (see w j pg nurl s) t → Effect w j pg l s t
  unfolding see
  Effect-see nurl s t e = Effect-see_if j.subscriber.analyzed_url_connected nurl s t e

  -- Every round of the loop has one of the three effects.
  pub link_step-Effect : (s : Scan) → Effect w j pg l s (link_step w j pg l s)
  unfolding link_step
  link_step-Effect s = elim (Result-cases (w.resolve pg.request_url l.href)) [
    | inl (_, e) ↦ rw (e, link_step) (skips refl refl refl)
    | inr (raw, e) ↦
        let (u, nurl) = normalized w j pg raw in
        rw (e, link_step)
          (Effect-see nurl s _ (seen_link-Effect raw u nurl (see w j pg nurl s) e refl))
  ]
