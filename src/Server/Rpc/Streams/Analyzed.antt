-- ===== src/Server/Rpc/Streams/Analyzed.antt =====
-- What a client of `GetAnalyzedURLs` in worker.go is sent.
use ideacrawler.Prelude.{
  String, true, none, some, List, [], ◌++◌, Outcome, ok, blocks, ◌≡◌, ◌⊎◌, inl, inr, refl,
  Option-cases, Bool, false, ◌∷◌, length, ltb,
}
use ideacrawler.Prelude.Dict.{lookup, insert, lookup-insert_same}
use ideacrawler.Prelude.Chan.{Chan, make}
use ideacrawler.Proto.{JobId, UrlList}
use ideacrawler.Job.{Job}
use ideacrawler.Server.{Server, registered, find_job}
use ideacrawler.Server.Registry.{WellFormed}
use ideacrawler.Server.Rpc.{with_job}
use ideacrawler.Server.Rpc.Cancel.{unknown_job}
use ideacrawler.Server.Rpc.Streams.{
  lists_end, Client, Listened, stream_out, stop_analyzed, analyzed_found, get_analyzed_urls,
}
use ideacrawler.Server.Rpc.Streams.Listen.{stream_out-Streams}

-- The two channels of the handler are open, and that for the signal has room.
abbrev pub Listening : String → Server → Type 0
Listening id s =
    (j : Job) × (c : Chan UrlList) × (d : Chan Bool) × (lookup id s.store ≡ some j)
    × (j.subscriber.analyzed_url_chan ≡ some c)
    × (c.closed ≡ false)
    × (j.subscriber.stop_analyzed_url_chan ≡ some d)
    × (d.closed ≡ false)
    × (ltb (length d.items) d.cap ≡ true)

-- From `s` to `t` one signal went into the second channel, and nothing else changed.
abbrev pub StoppedLists : String → Server → Server → Type 0
StoppedLists id s t =
    (j : Job) × (d : Chan Bool) × (lookup id s.store ≡ some j)
    × (j.subscriber.stop_analyzed_url_chan ≡ some d)
    × (t ≡ record s {
      store =
          insert id
            (record j {
              subscriber = record (j.subscriber) {
                stop_analyzed_url_chan = some (record d { items = d.items ++ true ∷ [] });
              };
            })
            s.store;
    })

stop_analyzed-StoppedLists :
    (id : String) (s : Server)
    → Listening id s
    → (t : Server) × (with_job id stop_analyzed s ≡ ok t) × StoppedLists id s t
stop_analyzed-StoppedLists id s (j, c, d, at, lists, unclosed, chan, open_, room) =
    (_, rw (at, chan, open_, room) refl, (j, d, at, chan, refl))

lists_end-false :
    (id : String) (s : Server) → Listening id s → lists_end (lookup id s.store) ≡ false
lists_end-false id s (j, c, d, at, lists, unclosed, stops, open_, room) = rw (at, lists) unclosed

module _ (meanwhile : Server → Server) (client : Client UrlList) (lists : List UrlList) where
  -- The server with the two channels of the handler in the job.
  abbrev pub connected : Job → String → Server → Server
  connected j id s = record s {
    store =
        insert id
          (record j {
            subscriber = record (j.subscriber) {
              analyzed_url_connected = true;
              analyzed_url_chan = some (make 100);
              stop_analyzed_url_chan = some (make 3);
            };
          })
          s.store;
  }

  connected-Listening : (j : Job) (id : String) (s : Server) → Listening id (connected j id s)
  connected-Listening j id s =
      (_, make 100, make 3, lookup-insert_same id _ s.store, refl, refl, refl, refl, refl)

  abbrev pub Analyzes : JobId → Server → Outcome (Listened UrlList) → Type 0
  Analyzes sub s r =
      ((registered s sub.id ≡ none) × (r ≡ ok (s, [], some (unknown_job sub))))
      ⊎ ((j : Job) × (lookup sub.id s.store ≡ some j)
          × (((stream_out client [] lists ≡ (lists, none)) × (r ≡ blocks))
              ⊎ ((out : List UrlList) × (rest : List UrlList) × (e : String) × (lists ≡ out ++ rest)
                  × (client out ≡ some e)
                  × ((s' : Server) × StoppedLists sub.id (meanwhile (connected j sub.id s)) s'
                      × (r ≡ ok (s', out, some e))))))

  -- `GetAnalyzedURLs` on a well-formed server reports a job that is not registered. Otherwise it gives
  -- the job two new channels and sends the lists that the job puts into the first, in order, up to the
  -- one at which the client fails: then its error is returned and one signal put into the second.
  -- While the client takes them all the handler never returns, also when the job is done. Asked for
  -- is that nobody closes the channels and that the second keeps room for the signal.
  pub get_analyzed_urls-Analyzes :
      (sub : JobId) (s : Server)
      → WellFormed s
      → ((t : Server) → Listening sub.id t → Listening sub.id (meanwhile t))
      → Analyzes sub s (get_analyzed_urls meanwhile client lists (some sub) s)
  unfolding get_analyzed_urls analyzed_found find_job
  get_analyzed_urls-Analyzes sub s wf keeps = elim (Option-cases (registered s sub.id)) [
    | inl missing ↦ inl (missing, rw missing refl)
    | inr (_, there) ↦
        let (j, at, named) = wf sub.id there in
        let listening = keeps (connected j sub.id s) (connected-Listening j sub.id s) in
        let runs_on = lists_end-false sub.id (meanwhile (connected j sub.id s)) listening in
        let (t, stops_job, stopped) =
          stop_analyzed-StoppedLists sub.id (meanwhile (connected j sub.id s)) listening in
        inr (
          j,
          at,
          rw (there, at)
              (elim (stream_out-Streams client [] lists) [
                | inl all ↦ inl (all, rw (all, runs_on) refl)
                | inr (out, rest, e, split, fails, stops) ↦
                    inr (out, rest, e, split, fails, (t, stopped, rw (stops, stops_job) refl))
              ]),
        )
  ]
