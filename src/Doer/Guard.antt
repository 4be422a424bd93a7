-- ===== src/Doer/Guard.antt =====
-- What `Do` of doer.go lets through.
use ideacrawler.Prelude.{
  String, Bool, true, false, not, ◌&&◌, List, Option, none, some, Outcome, ok, ◌>>=◌, Result, val,
  err, ◌≡◌, ◌⊎◌, inl, inr, refl, sym, ap, ◌∙◌, arith, str_eq, str_eq_iff, Bool-cases, Result-cases,
}
use ideacrawler.Job.{Job, request_cancel}
use ideacrawler.Web.{Web, Response}
use ideacrawler.Doer.{
  World, Done, has_iface, start_prefetches, with_prefetches, found_links, prefetch_body, responded,
  send, checked, refused, not_active_message, do_request,
}

module _ (world : World) (w : Web) where
  -- The interface that the job is bound to is there, or it is not bound to one.
  abbrev pub Active : Job → Type 0
  Active j =
      (j.opts.network_iface ≡ "")
      ⊎ ((ifs : List String) × (world.interfaces ≡ val ifs)
          × (has_iface j.opts.network_iface ifs ≡ true))

  abbrev Kept : Response → Result Response → Type 0
  Kept res r = ((e : String) × (r ≡ err e)) ⊎ (r ≡ val res)

  -- The request goes out, and what is returned is an error or the response of the client as it came.
  abbrev pub Sent : Job → Done → Type 0
  Sent j d =
      (d.asked ≡ true)
      × (d.job ≡ j)
      × (((e : String) × (d.result ≡ err e))
          ⊎ ((res : Response) × (world.response ≡ val res) × (d.result ≡ val res)))

  with_prefetches-Kept :
      (res : Response) (p : List (Bool × String) × Option String)
      → Kept res (with_prefetches world res p).1
  unfolding with_prefetches
  with_prefetches-Kept res (started, some e) = inl (e, refl)
  with_prefetches-Kept res (started, none) = inr refl

  found_links-Kept :
      (res : Response) (r : Result (List String)) → Kept res (found_links world res r).1
  unfolding found_links
  found_links-Kept res (err e) = inl (e, refl)
  found_links-Kept res (val links) = with_prefetches-Kept res (start_prefetches world links)

  prefetch_body-Kept :
      (res : Response) (r : Result String) → Kept res (prefetch_body world w res r).1
  unfolding prefetch_body
  prefetch_body-Kept res (err e) = inl (e, refl)
  prefetch_body-Kept res (val body) =
      found_links-Kept res (world.prefetch_urls body (w.url_string res.request_url))

  responded-Kept :
      (j : Job) (r : Result Response)
      → ((e : String) × ((responded world w j.opts r).1 ≡ err e))
        ⊎ ((res : Response) × (r ≡ val res) × ((responded world w j.opts r).1 ≡ val res))
  unfolding responded
  responded-Kept j (err e) = inl (e, refl)
  responded-Kept j (val res) = elim (Bool-cases (not j.opts.chrome && j.opts.prefetch)) [
    | inr plain ↦ inr (res, refl, rw plain refl)
    | inl prefetching ↦ elim (prefetch_body-Kept res res.body) [
      | inl (e, fails) ↦ inl (e, rw prefetching fails)
      | inr kept ↦ inr (res, refl, rw prefetching kept)
    ]
  ]

  send-Sent : (j : Job) → Sent j (send world w j)
  unfolding send
  send-Sent j = (refl, refl, responded-Kept j world.response)

  unlisted :
      (j : Job) {e : String}
      → str_eq j.opts.network_iface "" ≡ false
      → world.interfaces ≡ err e
      → ¬ Active j
  unlisted j bound fails (inl free) =
      ground (arith, str_eq_iff j.opts.network_iface "", bound, free)
  unlisted j bound fails (inr (ifs, listed, there)) = cc

  absent :
      (j : Job) {ifs : List String}
      → str_eq j.opts.network_iface "" ≡ false
      → world.interfaces ≡ val ifs
      → has_iface j.opts.network_iface ifs ≡ false
      → ¬ Active j
  absent j bound listed missing (inl free) =
      ground (arith, str_eq_iff j.opts.network_iface "", bound, free)
  absent j bound listed missing (inr (ifs', again, there)) =
      let same = listed_once (sym listed ∙ again) in
      ground (arith, sym (ap (has_iface j.opts.network_iface) same) ∙ missing, there)
    where
      listed_once : {xs ys : List String} → val xs ≡ val ys → xs ≡ ys
      listed_once e = cc

  abbrev pub Guards : Job → Outcome Done → Type 0
  Guards j r =
      (Active j × ((d : Done) × (r ≡ ok d) × Sent j d))
      ⊎ (¬ Active j
          × (((e : String) × (world.interfaces ≡ err e) × (r ≡ ok (refused world j e)))
              ⊎ (r ≡ (
                  request_cancel j >>= λ j'.
                  ok (refused world j' (not_active_message j.opts.network_iface))))))

  -- `Do` passes a request on exactly if the job's network interface is active or it is not bound to
  -- one; the response is then returned as the client gave it, or there is an error. Otherwise nothing
  -- is asked of the client: the list of the interfaces cannot be read, and that is the error, or the
  -- job is cancelled, which waits for ever if its cancel goroutine does not listen.
  pub do_request-Guards : (j : Job) → Guards j (do_request world w j)
  unfolding do_request checked
  do_request-Guards j = elim (Bool-cases (str_eq j.opts.network_iface "")) [
    | inl unbound ↦ inl (
      inl ((str_eq_iff j.opts.network_iface "").0 unbound),
      (send world w j, rw unbound refl, send-Sent j),
    )
    | inr bound ↦ elim (Result-cases world.interfaces) [
      | inl (e, fails) ↦ inr (unlisted j bound fails, inl (e, fails, rw (bound, fails) refl))
      | inr (ifs, listed) ↦ elim (Bool-cases (has_iface j.opts.network_iface ifs)) [
        | inl there ↦ inl (
          inr (ifs, listed, there),
          (send world w j, rw (bound, listed, there) refl, send-Sent j),
        )
        | inr missing ↦ inr (absent j bound listed missing, inr (rw (bound, listed, missing) refl))
      ]
    ]
  ]
