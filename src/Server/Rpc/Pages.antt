-- ===== src/Server/Rpc/Pages.antt =====
-- What an `AddPages` stream of worker.go delivers.
use ideacrawler.Prelude.{
  String, true, false, none, some, List, [], ◌∷◌, ◌++◌, map, Outcome, ok, ◌>>=◌, ◌≡◌, refl, ap, ◌∙◌,
  length, All, ltb,
}
use ideacrawler.Prelude.Dict.{lookup, insert, lookup-insert_same}
use ideacrawler.Prelude.Chan.{Chan}
use ideacrawler.Proto.{JobId, PageRequest}
use ideacrawler.Job.{Job, done}
use ideacrawler.Server.{Server, registered, find_job}
use ideacrawler.Server.Rpc.{
  Recv, request, nil_request, eof, failed, Reply, Added, with_job, deliver, add_pages_loop,
  add_pages, add_first, job_done_now, note, log_job_id, nil_request_message,
}

-- The job goes on and its request channel is open; and there is room for one more request.
abbrev pub Live : String → Server → Type 0
Live id s =
    (j : Job) × (c : Chan PageRequest) × (lookup id s.store ≡ some j)
    × (done j ≡ false)
    × (j.subscriber.req_chan ≡ some c)
    × (c.closed ≡ false)

abbrev pub HasRoom : String → Server → Type 0
HasRoom id s =
    (j : Job) × (c : Chan PageRequest) × (lookup id s.store ≡ some j)
    × (done j ≡ false)
    × (j.subscriber.req_chan ≡ some c)
    × (c.closed ≡ false)
    × (ltb (length c.items) c.cap ≡ true)

-- The server with one request more at the end of the channel of job `j`, and nothing else changed.
abbrev pub put : String → PageRequest → Job → Chan PageRequest → Server → Server
put id r j c s = record s {
  store =
      insert id
        (record j {
          subscriber = record (j.subscriber) {
            req_chan = some (record c { items = c.items ++ r ∷ [] });
          };
        })
        s.store;
}

deliver-Live :
    (r : PageRequest) (id : String) (s : Server) (room : HasRoom id s)
    → (with_job id (deliver r) s ≡ ok (put id r room.0 room.1 s))
      × Live id (put id r room.0 room.1 s)
deliver-Live r id s (j, c, at, live, chan, open_, room) = (
  rw (at, chan, open_, room) refl,
  (
    record j {
      subscriber = record (j.subscriber) {
        req_chan = some (record c { items = c.items ++ r ∷ [] });
      };
    },
    record c { items = c.items ++ r ∷ [] },
    lookup-insert_same id _ s.store,
    live,
    refl,
    open_,
  ),
)

-- What the handler returns when the stream ends so.
abbrev pub Ends : Recv → Reply → Type 0
Ends (request r) reply = ⊥
Ends nil_request reply = reply ≡ some nil_request_message
Ends eof reply = reply ≡ none
Ends (failed e) reply = reply ≡ some e

abbrev pub HasId : PageRequest → Type 0
HasId r = (sub : JobId) × (r.job_id ≡ some sub)

module _ (meanwhile : List Recv → Server → Server) (id : String) where
  -- From one server to another these requests have gone into the channel of the job, each behind what
  -- was there, and beside that only what the others did while the handler waited has changed anything.
  pub data Went : List PageRequest → Server → Server → Type 0 where
    settled : {s : Server} → Went [] s s
    others :
        {prs : List PageRequest} {s t : Server} (rs : List Recv)
        → Went prs (meanwhile rs s) t
        → Went prs s t
    puts :
        {r : PageRequest} {prs : List PageRequest} {s t : Server} (j : Job) (c : Chan PageRequest)
        → lookup id s.store ≡ some j
        → j.subscriber.req_chan ≡ some c
        → Went prs (put id r j c s) t
        → Went (r ∷ prs) s t

  -- While the handler waits, the job goes on and takes requests out of its channel.
  abbrev pub Serves : Type 0
  Serves = (rs : List Recv) (s : Server) → Live id s → HasRoom id (meanwhile rs s)

  loop-Ends :
      (e : Recv) (rs : List Recv) (s : Server) (reply : Reply)
      → Ends e reply
      → add_pages_loop meanwhile id (e ∷ rs) s ≡ ok (s, [], reply)
  unfolding add_pages_loop
  loop-Ends (request _) rs s reply h = elim h [ ]
  loop-Ends nil_request rs s reply h = rw h
  loop-Ends eof rs s reply h = rw h
  loop-Ends (failed m) rs s reply h = rw h

  delivered :
      (r : PageRequest)
      → HasId r
      → (m : Outcome Added) {s : Server} {ps : List PageRequest} {reply : Reply}
      → m ≡ ok (s, ps, reply)
      → (log_job_id r.job_id >>= λ _. note r m) ≡ ok (s, r ∷ ps, reply)
  delivered r (sub, named) m h = ap (λ o. log_job_id o >>= λ _. note r m) named ∙ ap (note r) h

  job_done_now-false : (s : Server) → HasRoom id s → job_done_now meanwhile id s ≡ false
  unfolding job_done_now
  job_done_now-false s (j, c, at, live, chan, open_, free) = rw at live

  loop_request :
      (r : PageRequest) (rs : List Recv) (s s2 s' : Server) (ps : List PageRequest) (reply : Reply)
      → job_done_now meanwhile id (meanwhile rs s) ≡ false
      → with_job id (deliver r) (meanwhile rs s) ≡ ok s2
      → HasId r
      → add_pages_loop meanwhile id rs s2 ≡ ok (s', ps, reply)
      → add_pages_loop meanwhile id (request r ∷ rs) s ≡ ok (s', r ∷ ps, reply)
  unfolding add_pages_loop
  loop_request r rs s s2 s' ps reply live sent named rest =
      rw (live, sent) (delivered r named (add_pages_loop meanwhile id rs s2) rest)

  -- What holds of the server when the handler waits, with a property of the requests.
  module _ {P : PageRequest → Type 0} {I : Server → Type 0}
      (keeps : (rs : List Recv) (s : Server)
        → I s
        → (room : HasRoom id (meanwhile rs s)) × ((r : PageRequest)
            → P r
            → I (put id r room.0 room.1 (meanwhile rs s)))) where
    pub add_pages_loop-delivers :
        (ps : List PageRequest) (e : Recv) (rs : List Recv) (s : Server) (reply : Reply)
        → I s
        → All P ps
        → All HasId ps
        → Ends e reply
        → (s' : Server) × (add_pages_loop meanwhile id (map request ps ++ e ∷ rs) s
            ≡ ok (s', ps, reply))
          × Went ps s s'
          × I s'
    add_pages_loop-delivers [] e rs s reply live fine ids h =
        (s, loop-Ends e rs s reply h, settled, live)
    add_pages_loop-delivers (p ∷ ps) e rs s reply live fine ids h =
        let after = map request ps ++ e ∷ rs in
        let s1 = meanwhile after s in
        let (room, goes_on) = keeps after s live in
        let (sent, _) = deliver-Live p id s1 room in
        let s2 = put id p room.0 room.1 s1 in
        let (s', rest, went, last) =
          add_pages_loop-delivers ps e rs s2 reply (goes_on p fine.0) fine.1 ids.1 h in
        (
          s',
          loop_request p after s s2 s' ps reply (job_done_now-false s1 room) sent ids.0 rest,
          others after (puts room.0 room.1 room.2 room.4 went),
          last,
        )

module _ (meanwhile : List Recv → Server → Server) where
  add_pages_starts :
      (r : PageRequest) (sub : JobId) (rs : List Recv) (s s1 s' : Server) (ps : List PageRequest)
      (reply : Reply)
      → r.job_id ≡ some sub
      → registered s sub.id ≡ some tt
      → with_job sub.id (deliver r) s ≡ ok s1
      → add_pages_loop meanwhile sub.id rs s1 ≡ ok (s', ps, reply)
      → add_pages meanwhile (request r ∷ rs) s ≡ ok (s', r ∷ ps, reply)
  unfolding add_pages add_first find_job
  add_pages_starts r sub rs s s1 s' ps reply named there sent rest =
      ap (λ o. add_first meanwhile r o rs s) named ∙ rw (there, sent, rest)

  module _ {P : PageRequest → Type 0} {I : Server → Type 0} (sub : JobId)
      (keeps : (rs : List Recv) (s : Server)
        → I s
        → (room : HasRoom sub.id (meanwhile rs s)) × ((r : PageRequest)
            → P r
            → I (put sub.id r room.0 room.1 (meanwhile rs s)))) where
    pub add_pages-keeps :
        (r : PageRequest) (ps : List PageRequest) (e : Recv) (rs : List Recv) (s : Server)
        (reply : Reply)
        → r.job_id ≡ some sub
        → registered s sub.id ≡ some tt
        → (room : HasRoom sub.id s) → I (put sub.id r room.0 room.1 s)
        → All P ps
        → All HasId ps
        → Ends e reply
        → (s' : Server) × (add_pages meanwhile (request r ∷ map request ps ++ e ∷ rs) s
            ≡ ok (s', r ∷ ps, reply))
          × Went meanwhile sub.id (r ∷ ps) s s'
          × I s'
    add_pages-keeps r ps e rs s reply named there room goes_on fine ids h =
        let (sent, _) = deliver-Live r sub.id s room in
        let (s', rest, went, last) =
          add_pages_loop-delivers meanwhile sub.id keeps ps e rs (put sub.id r room.0 room.1 s)
            reply goes_on fine ids h in
        (
          s',
          add_pages_starts r sub (map request ps ++ e ∷ rs) s (put sub.id r room.0 room.1 s) s' ps
              reply named there sent rest,
          puts room.0 room.1 room.2 room.4 went,
          last,
        )
