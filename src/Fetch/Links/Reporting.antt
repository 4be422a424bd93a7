-- ===== src/Fetch/Links/Reporting.antt =====
-- When `enqueueLinks` of job.go returns: what becomes of the list of URLs that it reports.
use ideacrawler.Prelude.{
  Bool, true, false, not, ◌&&◌, ◌||◌, Option, some, Outcome, ok, ◌≡◌, ◌↔◌, ◌⊎◌, arith, ltb, length,
  inl, inr, refl, Returns, Returns-bind, if◌then◌else◌, List, ◌++◌, ◌∷◌, [],
}
use ideacrawler.Prelude.Chan.{Chan, can_recv, can_send, send}
use ideacrawler.Proto.{UrlList}
use ideacrawler.Job.{Job}
use ideacrawler.Web.{Web, Link}
use ideacrawler.Fetch.Links.{Page, send_report, enqueue_links}

-- There is an open channel for the lists, with room for one more.
abbrev pub TakesList : Option (Chan UrlList) → Type 0
TakesList o =
    (c : Chan UrlList) × (o ≡ some c) × (c.closed ≡ false) × (ltb (length c.items) c.cap ≡ true)

-- No client listens for the lists or for pages, a stop signal is taken, or the list is.
abbrev pub GetsRidOfList : Bool → Job → Type 0
GetsRidOfList prefer_stop j =
    (j.subscriber.analyzed_url_connected ≡ false)
    ⊎ ((j.subscriber.connected ≡ false)
        ⊎ (((can_recv j.subscriber.stop_analyzed_url_chan
                && (prefer_stop || not (can_send j.subscriber.analyzed_url_chan)))
              ≡ true)
            ⊎ TakesList j.subscriber.analyzed_url_chan))

Returns-by {ℓ} :
    {A : Type ℓ} (c : Bool) (x y : Outcome A)
    → (c ≡ true → Returns x)
    → (c ≡ false → Returns y)
    → Returns (if c then x else y)
Returns-by true x y h k = h refl
Returns-by false x y h k = k refl

-- A list that nothing else becomes of is taken by the channel.
is_taken :
    (ps : Bool) (j : Job)
    → GetsRidOfList ps j
    → not j.subscriber.analyzed_url_connected ≡ false
    → not j.subscriber.connected ≡ false
    → (can_recv j.subscriber.stop_analyzed_url_chan
        && (ps || not (can_send j.subscriber.analyzed_url_chan)))
      ≡ false
    → TakesList j.subscriber.analyzed_url_chan
is_taken ps j (inl deaf) hears there runs = ground arith
is_taken ps j (inr (inl gone)) hears there runs = ground arith
is_taken ps j (inr (inr (inl stop))) hears there runs = cc
is_taken ps j (inr (inr (inr taken))) hears there runs = taken

send-Returns : (o : Option (Chan UrlList)) (list : UrlList) → TakesList o → Returns (send o list)
send-Returns o list (c, there, opened, room) =
    (some (record c { items = c.items ++ list ∷ [] }), rw (there, opened, room) refl)

send_report-Returns :
    (ps : Bool) (list : UrlList) (j : Job) → GetsRidOfList ps j → Returns (send_report ps list j)
unfolding send_report
send_report-Returns ps list j h =
    Returns-by (not j.subscriber.analyzed_url_connected) _ _ (λ _. (j, refl))
      (λ hears.
        Returns-by (not j.subscriber.connected) _ _ (λ _. (j, refl))
          (λ there.
            Returns-by _ _ _ (λ _. (_, refl))
              (λ runs.
                let (c, sent) =
                  send-Returns j.subscriber.analyzed_url_chan list
                    (is_taken ps j h hears there runs) in
                Returns-bind _ _ c sent (_, refl))))

send_report-returned :
    (ps : Bool) (list : UrlList) (j j' : Job) → send_report ps list j ≡ ok j' → GetsRidOfList ps j
unfolding send_report
send_report-returned ps list j j' h = ground arith

-- Whatever the page, `enqueueLinks` returns exactly if it gets rid of the list of URLs it reports.
pub enqueue_links-Returns_iff :
    (w : Web) (ps : Bool) (pg : Page) (links : List Link) (j : Job)
    → Returns (enqueue_links w ps pg links j) ↔ GetsRidOfList ps j
unfolding enqueue_links
enqueue_links-Returns_iff w ps pg links j =
    (λ (j', run). send_report-returned ps _ _ j' run, λ h. send_report-Returns ps _ _ h)
