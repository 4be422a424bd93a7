-- ===== src/Server/Rpc/Streams/Listen.antt =====
-- What a client of `AddDomainAndListen` in worker.go is sent.
use ideacrawler.Prelude.{
  String, true, none, some, List, [], ◌∷◌, ◌++◌, Outcome, ok, val, Result, ◌≡◌, refl, sym, ap,
  subst, ◌∙◌, ◌⊎◌, inl, inr, Option-cases, Bool, false, length, ltb,
}
use mathlib.Core.List.{append-nil, append_assoc}
use ideacrawler.Prelude.Dict.{lookup, insert, lookup-insert_same}
use ideacrawler.Prelude.Chan.{Chan}
use ideacrawler.Proto.{DomainOpt, PageHtml}
use ideacrawler.Job.{Job, Regexp}
use ideacrawler.Web.{Web}
use ideacrawler.Server.{Server, NewJob, add_new_job}
use ideacrawler.Server.Registry.{Accepts, add_new_job-Admits}
use ideacrawler.Server.Rpc.{Reply, with_job}
use ideacrawler.Server.Rpc.Streams.{
  Client, stream_out, stop_job, subscription_page, Listened, listen_to, add_domain_and_listen,
}

-- A stream of the messages `all`: they are all sent, or the client fails at some point.
abbrev pub Streams {ℓ} : {A : Type ℓ} → Client A → List A → List A × Reply → Type ℓ
Streams client all r =
    (r ≡ (all, none))
    ⊎ ((out : List _) × (rest : List _) × (e : String) × (all ≡ out ++ rest)
        × (client out ≡ some e)
        × (r ≡ (out, some e)))

module _ {ℓ} {A : Type ℓ} (client : Client A) where
  stream_out_goes :
      (sent : List A) (m : A) (ms : List A)
      → client (sent ++ m ∷ []) ≡ none
      → stream_out client sent (m ∷ ms) ≡ stream_out client (sent ++ m ∷ []) ms
  unfolding stream_out
  stream_out_goes sent m ms h = rw (stream_out, h) refl

  stream_out_fails :
      (sent : List A) (m : A) (ms : List A) {e : String}
      → client (sent ++ m ∷ []) ≡ some e
      → stream_out client sent (m ∷ ms) ≡ (sent ++ m ∷ [], some e)
  unfolding stream_out
  stream_out_fails sent m ms h = rw (stream_out, h) refl

  pub stream_out-Streams :
      (sent ms : List A) → Streams client (sent ++ ms) (stream_out client sent ms)
  unfolding stream_out
  stream_out-Streams sent [] = inl (rw append-nil refl)
  stream_out-Streams sent (m ∷ ms) =
      let at = append_assoc sent (m ∷ []) ms in
      elim (Option-cases (client (sent ++ m ∷ []))) [
        | inr (e, fails) ↦
            inr (sent ++ m ∷ [], ms, e, sym at, fails, stream_out_fails sent m ms fails)
        | inl fine ↦
            subst (Streams client (sent ++ m ∷ ms)) (sym (stream_out_goes sent m ms fine)) (
              subst (λ all. Streams client all (stream_out client (sent ++ m ∷ []) ms)) at
                (stream_out-Streams (sent ++ m ∷ []) ms))
      ]

-- The job's stop channel is open and has room.
abbrev pub CanStop : String → Server → Type 0
CanStop id s =
    (j : Job) × (c : Chan Bool) × (lookup id s.store ≡ some j)
    × (j.subscriber.stop_chan ≡ some c)
    × (c.closed ≡ false)
    × (ltb (length c.items) c.cap ≡ true)

-- From `s` to `t` one signal went into the job's stop channel, and nothing else changed.
abbrev pub Stopped : String → Server → Server → Type 0
Stopped id s t =
    (j : Job) × (c : Chan Bool) × (lookup id s.store ≡ some j)
    × (j.subscriber.stop_chan ≡ some c)
    × (t ≡ record s {
      store =
          insert id
            (record j {
              subscriber = record (j.subscriber) {
                stop_chan = some (record c { items = c.items ++ true ∷ [] });
              };
            })
            s.store;
    })

stop_job-Stopped :
    (id : String) (s : Server)
    → CanStop id s
    → (t : Server) × (with_job id stop_job s ≡ ok t) × Stopped id s t
stop_job-Stopped id s (j, c, at, chan, open_, room) =
    (_, rw (at, chan, open_, room) refl, (j, c, at, chan, refl))

module _ (w : Web) (compile : String → Result Regexp) (meanwhile : Server → Server)
    (client : Client PageHtml) (pages : List PageHtml) (id : String) (opts : DomainOpt)
    (s : Server) where
  abbrev pub new_request : NewJob
  new_request = record { opts = opts; subscribe = true }

  -- The server with the new job, and what the client is to be sent.
  abbrev pub with_new_job : Server
  with_new_job = (add_new_job w compile id new_request s).0

  abbrev pub messages : List PageHtml
  messages = subscription_page (record { id = id }) ∷ pages

  abbrev pub Delivers : Outcome (Listened PageHtml) → Type 0
  Delivers r =
      (r ≡ ok (meanwhile with_new_job, messages, none))
      ⊎ ((out : List PageHtml) × (rest : List PageHtml) × (e : String) × (messages ≡ out ++ rest)
          × (client out ≡ some e)
          × ((s' : Server) × Stopped id (meanwhile with_new_job) s' × (r ≡ ok (s', out, some e))))

  abbrev pub Listens : Outcome (Listened PageHtml) → Type 0
  Listens r =
      (¬ Accepts w compile new_request × ((e : String) × (r ≡ ok (s, [], some e))))
      ⊎ (Accepts w compile new_request × Delivers r)

  listens :
      (j : Job)
      → lookup id with_new_job.store ≡ some j
      → j.subscriber.connected ≡ true
      → CanStop id (meanwhile with_new_job)
      → Delivers
          (listen_to w compile meanwhile client pages (with_new_job, val (record { id = id })))
  unfolding listen_to
  listens j stored connected can =
      let (t, stops_job, stopped) = stop_job-Stopped id (meanwhile with_new_job) can in
      rw (stored, connected)
        (elim (stream_out-Streams client [] messages) [
          | inl all ↦ inl (rw all refl)
          | inr (out, rest, e, split, fails, stops) ↦
              inr (out, rest, e, split, fails, (t, stopped, rw (stops, stops_job) refl))
        ])

  -- A call of `AddDomainAndListen` that `addNewJob` does not admit returns its error, and the client
  -- is sent nothing. Otherwise the client is sent the new job's id first and then the pages of the
  -- job in order: all of them, with nil returned, or those up to the one at which the client fails,
  -- with its error returned and one signal put on the job's stop channel. Asked for is that the stop
  -- channel of the job is open and has room when the client fails.
  pub add_domain_and_listen-Listens :
      ((j : Job) → lookup id with_new_job.store ≡ some j → CanStop id (meanwhile with_new_job))
      → Listens (add_domain_and_listen w compile meanwhile client pages id opts s)
  unfolding add_domain_and_listen listen_to
  add_domain_and_listen-Listens keeps = elim (add_new_job-Admits w compile id new_request s) [
    | inr (bad, (e, refused), same) ↦ inl (bad, (e, rw (same, refused) refl))
    | inl (accepts, (j, starts, same, answer)) ↦
        let stored = ap (λ t. lookup id t.store) same ∙ lookup-insert_same id j s.store in
        inr (
          accepts,
          subst (λ r. Delivers (listen_to w compile meanwhile client pages (with_new_job, r)))
              (sym answer) (listens j stored starts.5 (keeps j stored)),
        )
  ]
