-- ===== src/Delivery/Serving.antt =====
-- The goroutine of `RunJob` in job.go that takes page requests, at work while the `AddPages` handler of
-- worker.go waits.
use ideacrawler.Prelude.{
  String, true, List, [], ◌∷◌, ◌++◌, Option, none, some, val, err, ◌≡◌, ◌≢◌, refl, sym, ap, subst,
  ◌∙◌, inl, inr, All, All-append, ltb, length, arith, false, ℕ,
}
use mathlib.Core.List.{append-nil, append_assoc}
use ideacrawler.Prelude.Dict.{lookup, insert, lookup-insert_same}
use ideacrawler.Prelude.Chan.{Chan}
use ideacrawler.Proto.{PageRequest}
use ideacrawler.Job.{Job, done, Url, CrawlCommand}
use ideacrawler.Web.{Web}
use ideacrawler.Server.{Server}
use ideacrawler.Server.Rpc.Pages.{HasRoom, put, Went, settled, others, puts}
use ideacrawler.RunJob.{handle_pages}
use ideacrawler.RunJob.Requests.{
  commands, commands_none, commands-append, with_commands, Takes, handle_pages-Takes,
}

err≢val {ℓ} : {A : Type ℓ} {e : String} {a : A} → err e ≢ val a
err≢val h = cc

some_injective {ℓ} : {A : Type ℓ} {a b : A} → some a ≡ some b → a ≡ b
some_injective h = cc

pub holds_one :
    (items : List PageRequest) (cap : ℕ) → ltb (length items) cap ≡ true → ltb 0 cap ≡ true
holds_one items cap room = ground arith

none≢some {ℓ} : {A : Type ℓ} {a : A} → none ≢ some a
none≢some h = cc

module _ (w : Web) (path_escape query_escape : String → String) where
  abbrev pub Parses : PageRequest → Type 0
  Parses r = (u : Url) × (w.parse_url r.url ≡ val u)

  bad-Parses :
      (before : List PageRequest) (bad : PageRequest) (left : List PageRequest)
      → All Parses (before ++ bad ∷ left)
      → Parses bad
  bad-Parses [] bad left h = h.0
  bad-Parses (r ∷ before) bad left h = bad-Parses before bad left h.1

  takes_everything :
      (rs : List PageRequest) (j : Job) (out : Job × List PageRequest)
      → All Parses rs
      → ((queue : List CrawlCommand) (cmd : CrawlCommand) → w.queue_send queue cmd ≡ none)
      → Takes w path_escape query_escape rs j out
      → ◌≡◌ {A = Job × List PageRequest} out
          (with_commands w path_escape query_escape j (commands w path_escape query_escape rs), [])
  takes_everything rs j (j', left) parses free (inl (all, same)) = λ i. (same i, all i)
  takes_everything rs j (j', left) parses free (inr (before, bad, split, same, inl (e, fails))) =
      let (u, parsed) = bad-Parses before bad left (subst (All Parses) split parses) in
      absurd (err≢val (sym fails ∙ parsed))
  takes_everything rs j (j', left) parses free
        (inr (before, bad, split, same, inr (u, cmd, e, parsed, wants, refused))) =
      absurd (none≢some (sym (free j'.queue cmd) ∙ refused))

  abbrev pub with_left : Chan PageRequest → Job × List PageRequest → Job
  with_left c (j, left) = record j {
    subscriber = record (j.subscriber) { req_chan = some (record c { items = left }) };
  }

  -- The job after its goroutine has taken what was in the channel.
  abbrev pub taken_from : Option (Chan PageRequest) → Job → Job
  taken_from none j = j
  taken_from (some c) j = with_left c (handle_pages w path_escape query_escape c.items j)

  abbrev pub served_job : String → Option Job → Server → Server
  served_job id none s = s
  served_job id (some j) s = record s {
    store = insert id (taken_from j.subscriber.req_chan j) s.store;
  }

  -- While the handler waits, the goroutine of `RunJob` takes every request that is in the channel.
  abbrev pub serve : String → Server → Server
  serve id s = served_job id (lookup id s.store) s

  abbrev pub emptied : Chan PageRequest → Chan PageRequest
  emptied c = record c { items = [] }

  abbrev pub caught_up : Job → Chan PageRequest → Job
  caught_up j c = record j {
    subscriber = record (j.subscriber) { req_chan = some (emptied c) };
    queue = j.queue ++ commands w path_escape query_escape c.items;
  }

  module _ (free : (queue : List CrawlCommand) (cmd : CrawlCommand) → w.queue_send queue cmd ≡ none)
      (id : String) where
    pub serve-caught_up :
        (s : Server) (j : Job) (c : Chan PageRequest)
        → lookup id s.store ≡ some j
        → j.subscriber.req_chan ≡ some c
        → All Parses c.items
        → serve id s ≡ record s { store = insert id (caught_up j c) s.store }
    serve-caught_up s j c at chan parses =
        let all =
          takes_everything c.items j (handle_pages w path_escape query_escape c.items j) parses free
            (handle_pages-Takes w path_escape query_escape c.items j) in
        ap (λ o. served_job id o s) at
        ∙ ap (λ o. record s { store = insert id (taken_from o j) s.store }) chan
        ∙ ap (λ p. record s { store = insert id (with_left c p) s.store }) all

    -- The job goes on, with an open channel for at least one request, and the URLs of the requests in
    -- it parse.
    abbrev pub Waits : Server → Type 0
    Waits s =
        (j : Job) × (c : Chan PageRequest) × (lookup id s.store ≡ some j)
        × (done j ≡ false)
        × (j.subscriber.req_chan ≡ some c)
        × (c.closed ≡ false)
        × (ltb 0 c.cap ≡ true)
        × All Parses c.items

    abbrev pub Keeps : Server → Type 0
    Keeps t =
        (room : HasRoom id t) × ((r : PageRequest) → Parses r → Waits (put id r room.0 room.1 t))

    pub serve-Keeps : (s : Server) → Waits s → Keeps (serve id s)
    serve-Keeps s (j, c, at, live, chan, open_, holds, parses) =
        subst Keeps (sym (serve-caught_up s j c at chan parses)) (
          (
            caught_up j c,
            emptied c,
            lookup-insert_same id (caught_up j c) s.store,
            live,
            refl,
            open_,
            holds,
          ),
          λ r fine. (
            record (caught_up j c) {
              subscriber = record (j.subscriber) { req_chan = some (record c { items = r ∷ [] }) };
            },
            record c { items = r ∷ [] },
            lookup-insert_same id _ (insert id (caught_up j c) s.store),
            live,
            refl,
            open_,
            holds,
            (fine, tt),
          ),
        )

    module _ (queue : List CrawlCommand) where
      -- With what is in the channel the queue has the commands of these requests.
      abbrev pub Owes : List PageRequest → Server → Type 0
      Owes prs s =
          (j : Job) × (c : Chan PageRequest) × (lookup id s.store ≡ some j)
          × (j.subscriber.req_chan ≡ some c)
          × All Parses c.items
          × (j.queue ++ commands w path_escape query_escape c.items
              ≡ queue ++ commands w path_escape query_escape prs)

      paid :
          (prs : List PageRequest) (j : Job) (c : Chan PageRequest)
          → j.queue ++ commands w path_escape query_escape c.items
            ≡ queue ++ commands w path_escape query_escape prs
          → (caught_up j c).queue ++ commands w path_escape query_escape []
            ≡ queue ++ commands w path_escape query_escape prs
      paid prs j c owes =
          ap (λ cs. (caught_up j c).queue ++ cs) (commands_none w path_escape query_escape)
          ∙ append-nil _
          ∙ owes

      serve-Owes : (prs : List PageRequest) (s : Server) → Owes prs s → Owes prs (serve id s)
      serve-Owes prs s (j, c, at, chan, parses, owes) =
          subst (Owes prs) (sym (serve-caught_up s j c at chan parses)) (
            caught_up j c,
            emptied c,
            lookup-insert_same id (caught_up j c) s.store,
            refl,
            tt,
            paid prs j c owes,
          )

      put-Owes :
          (prs : List PageRequest) (r : PageRequest) (s : Server) (j : Job) (c : Chan PageRequest)
          → Parses r
          → lookup id s.store ≡ some j
          → j.subscriber.req_chan ≡ some c
          → Owes prs s
          → Owes (prs ++ r ∷ []) (put id r j c s)
      put-Owes prs r s j c fine at chan (j', c', at', chan', parses, owes) =
          let same = some_injective (sym at' ∙ at) in
          let same_chan =
            some_injective (sym chan' ∙ ap (λ x. x.subscriber.req_chan) same ∙ chan) in
          (
            _,
            record c { items = c.items ++ r ∷ [] },
            lookup-insert_same id _ s.store,
            refl,
            All-append Parses c.items (r ∷ []) (subst (λ x. All Parses x.items) same_chan parses)
                (fine, tt),
            ap (λ cs. j.queue ++ cs) (commands-append w path_escape query_escape c.items (r ∷ []))
                ∙ sym (append_assoc j.queue _ _)
                ∙ ap (λ cs. cs ++ commands w path_escape query_escape (r ∷ []))
                    (ap (λ x. x.queue ++ commands w path_escape query_escape c.items) (sym same)
                      ∙ ap (λ x. j'.queue ++ commands w path_escape query_escape x.items)
                          (sym same_chan)
                      ∙ owes)
                ∙ append_assoc queue _ _
                ∙ ap (λ cs. queue ++ cs)
                    (sym (commands-append w path_escape query_escape prs (r ∷ []))),
          )

      pub Went-Owes :
          (before : List PageRequest) {prs : List PageRequest} {s t : Server}
          → All Parses prs
          → Went (λ rs. serve id) id prs s t
          → Owes before s
          → Owes (before ++ prs) t
      Went-Owes before {t = t} fine settled h = subst (λ l. Owes l t) (sym (append-nil before)) h
      Went-Owes before {s = s} fine (others rs went) h =
          Went-Owes before fine went (serve-Owes before s h)
      Went-Owes before {s = s} {t = t} fine (puts {r = r} {prs = prs} j c at chan went) h =
          subst (λ l. Owes l t) (append_assoc before (r ∷ []) prs)
            (Went-Owes (before ++ r ∷ []) fine.1 went (put-Owes before r s j c fine.0 at chan h))
