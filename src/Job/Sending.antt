-- ===== src/Job/Sending.antt =====
-- What `sendPageHTML` of job.go does to the job.
use ideacrawler.Prelude.{
  Bool, true, false, ◌&&◌, Option, none, some, List, [], ◌∷◌, ◌++◌, Outcome, ok, panics, ◌>>=◌, ◌≡◌,
  refl, ap, ◌⊎◌, inl, inr, ◌↔◌, arith, >>=-eq-ok, ok-injective, map, sym, ◌∙◌,
}
use mathlib.Core.List.{append-nil, append_assoc}
use ideacrawler.Prelude.Chan.{Chan, can_recv, send}
use ideacrawler.Proto.{PageHtml}
use ideacrawler.Job.{Job, request_cancel, send_page_html}

-- The pages that wait in the send channel.
abbrev pub chan_items : Option (Chan PageHtml) → List PageHtml
chan_items none = []
chan_items (some c) = c.items

abbrev pub pages : Job → List PageHtml
pages j = chan_items j.subscriber.send_chan

send_adds :
    (c c' : Option (Chan PageHtml)) (p : PageHtml)
    → send c p ≡ ok c'
    → chan_items c' ≡ chan_items c ++ p ∷ []
send_adds none c' p h = cc
send_adds (some c) c' p h = ground arith

pub request_cancel-pages :
    (j j' : Job)
    → request_cancel j ≡ ok j'
    → (pages j' ≡ pages j)
      × (j'.subscriber.connected ≡ j.subscriber.connected)
      × (j'.done_closed ≡ j.done_closed)
unfolding request_cancel
request_cancel-pages j j' h = ground arith

-- One send either adds the page, or leaves the pages; and if it leaves them, no later one adds.
pub send_page_html-pages :
    (ps ctx : Bool) (p : PageHtml) (j j' : Job)
    → send_page_html ps ctx p j ≡ ok j'
    → (j'.done_closed ≡ j.done_closed)
      × ((pages j' ≡ pages j ++ p ∷ [])
          ⊎ ((pages j' ≡ pages j) × ((j'.subscriber.connected ≡ false) ⊎ (j'.done_closed ≡ true))))
unfolding send_page_html request_cancel
send_page_html-pages ps ctx p j j' h = ground arith

-- The pages that one goroutine sends one after another, each with its choice at the select.
unfoldable pub send_all : Bool → List (Bool × PageHtml) → Job → Outcome Job
send_all ctx [] j = ok j
send_all ctx ((ps, p) ∷ rest) j = (send_page_html ps ctx p j >>= λ j'. send_all ctx rest j')

abbrev pub pages_of : List (Bool × PageHtml) → List PageHtml
pages_of = map (λ s. s.1)

abbrev pub IsCut : Job → Type 0
IsCut j = (j.subscriber.connected ≡ false) ⊎ (j.done_closed ≡ true)

send_page_html-cut :
    (ps ctx : Bool) (p : PageHtml) (j : Job) → IsCut j → send_page_html ps ctx p j ≡ ok j
unfolding send_page_html
send_page_html-cut ps ctx p j (inl e) = rw e
send_page_html-cut ps ctx p j (inr e) = ground arith

send_all-cut :
    (ctx : Bool) (ss : List (Bool × PageHtml)) (j : Job) → IsCut j → send_all ctx ss j ≡ ok j
unfolding send_all
send_all-cut ctx [] j c = refl
send_all-cut ctx ((ps, p) ∷ ss) j c = rw (send_page_html-cut ps ctx p j c) (send_all-cut ctx ss j c)

-- Of the pages that a goroutine hands to `sendPageHTML` in turn, a first part reaches the send
-- channel, behind what was there, in order and once each; the rest is dropped.
pub send_all-prefix :
    (ctx : Bool) (ss : List (Bool × PageHtml)) (j j' : Job)
    → send_all ctx ss j ≡ ok j'
    → (sent : List PageHtml) × (dropped : List PageHtml) × (pages_of ss ≡ sent ++ dropped)
      × (pages j' ≡ pages j ++ sent)
unfolding send_all
send_all-prefix ctx [] j j' h = ([], [], refl, ap pages (sym (ok-injective h)) ∙ sym (append-nil _))
send_all-prefix ctx ((ps, p) ∷ ss) j j' h =
    let (j₁, e, rest) = >>=-eq-ok _ _ h in
    elim (send_page_html-pages ps ctx p j j₁ e).1 [
      | inl added ↦
          let (sent, dropped, split, k) = send_all-prefix ctx ss j₁ j' rest in
          (p ∷ sent, dropped, ap (◌∷◌ p) split, k ∙ rw (added, append_assoc) refl)
      | inr (same, cut) ↦
          let e' = ok-injective (sym rest ∙ send_all-cut ctx ss j₁ cut) in
          ([], p ∷ pages_of ss, refl, ap pages e' ∙ same ∙ sym (append-nil _))
    ]

-- The send panics exactly in the window that `RunJob` leaves open at its end: the send channel is
-- closed, `doneChan` is not yet, the client counts as connected, and the select does not take a
-- waiting stop signal instead.
pub send_page_html-panics_iff :
    (ps ctx : Bool) (p : PageHtml) (j : Job) (c : Chan PageHtml)
    → j.subscriber.send_chan ≡ some c
    → (send_page_html ps ctx p j ≡ panics) ↔ (
        (j.subscriber.connected ≡ true)
        × (j.done_closed ≡ false)
        × (c.closed ≡ true)
        × ((can_recv j.subscriber.stop_chan && ps) ≡ false))
unfolding send_page_html request_cancel
send_page_html-panics_iff ps ctx p j c e = ground arith

pub request_cancel-keeps :
    (j j' : Job)
    → request_cancel j ≡ ok j'
    → (j'.queue ≡ j.queue) × (j'.duplicates ≡ j.duplicates) × (j'.opts ≡ j.opts)
unfolding request_cancel
request_cancel-keeps j j' h = ground arith

-- A send touches the subscriber and the cancel goroutine, and nothing else of the job.
pub send_page_html-keeps :
    (ps ctx : Bool) (p : PageHtml) (j j' : Job)
    → send_page_html ps ctx p j ≡ ok j'
    → (j'.queue ≡ j.queue) × (j'.duplicates ≡ j.duplicates) × (j'.opts ≡ j.opts)
unfolding send_page_html request_cancel
send_page_html-keeps ps ctx p j j' h = ground arith
